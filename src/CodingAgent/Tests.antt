-- ===== src/CodingAgent/Tests.antt =====
-- The tools on a small sandbox.
use fleet_llm_inference.Common.{
  true, false, none, some, [], ◌∷◌, ◌++◌, ◌≡◌, ◌≢◌, refl, any, not, ◌==◌, if◌then◌else◌,
}
use fleet_llm_inference.Common.Newlines.{newlines_after, universal_newlines, has_return}
use fleet_llm_inference.Common.Split.{split}
use fleet_llm_inference.Common.Raises.{ok, raised, value_error}
use fleet_llm_inference.CodingAgent.{
  FilePath, Files, text, same_path, resolve, resolve_from, in_sandbox, parents, read_file,
  write_file, read_text, write_text,
}
use fleet_llm_inference.CodingAgent.Agent.{
  run, apply_fix, contains, replace_first, buggy_add, fixed_add,
}
use fleet_llm_inference.CodingAgent.Sandbox.{Raises, write_file-sandbox}

abbrev sandbox : FilePath
sandbox = "repo" ∷ []

-- A link leads out of the sandbox.
abbrev files : Files
files = record {
  contents =
      λ p. if same_path p ("repo" ∷ "calculator.py" ∷ []) then some (text buggy_add) else none;
  encodes = λ t. not (t == "no text");
  is_directory = λ p. any (same_path p) ([] ∷ sandbox ∷ ("home" ∷ []) ∷ []);
  links = λ p. if same_path p ("repo" ∷ "out" ∷ []) then some ("home" ∷ []) else none;
}

outside_example : (write_file sandbox "../home/x" "text" files).1 ≡ raised value_error
unfolding write_file resolve resolve_from in_sandbox parents split
outside_example = refl

absolute_example : (write_file sandbox "/home/x" "text" files).1 ≡ raised value_error
unfolding write_file resolve resolve_from in_sandbox parents split
absolute_example = refl

link_example : (write_file sandbox "out/x" "text" files).1 ≡ raised value_error
unfolding write_file resolve resolve_from in_sandbox parents split
link_example = refl

inside_example : (write_file sandbox "./a/../x.py" "text" files).1 ≡ ok tt
unfolding write_file resolve resolve_from in_sandbox parents split write_text
inside_example = refl

-- The agent applies its fix.
run_example :
    (read_file sandbox "calculator.py" (run sandbox (λ k. ok "fine") (λ s. true) files).0).1
    ≡ ok fixed_add
unfolding run apply_fix contains replace_first write_file read_file read_text resolve resolve_from
    in_sandbox parents split write_text newlines_after
run_example = refl

write_file-sandbox_example :
    let (s', r) = write_file sandbox "./a/../x.py" "text" files in
    ((q : FilePath) → ((rest : FilePath) → q ≢ sandbox ++ rest) → s'.contents q ≡ files.contents q)
    × (s'.is_directory ≡ files.is_directory)
    × (s'.links ≡ files.links)
    × (r ≢ ok tt → Raises sandbox "./a/../x.py" "text" files s')
    × (r ≡ ok tt → (read_file sandbox "./a/../x.py" s').1 ≡ ok (universal_newlines "text"))
    × (r ≡ ok tt → has_return "text" ≡ false → (read_file sandbox "./a/../x.py" s').1 ≡ ok "text")
write_file-sandbox_example = write_file-sandbox sandbox "./a/../x.py" "text" files

line_ends : universal_newlines "a\r\nb\rc\n" ≡ "a\nb\nc\n"
unfolding newlines_after
line_ends = refl
