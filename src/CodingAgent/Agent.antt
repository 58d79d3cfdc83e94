-- ===== src/CodingAgent/Agent.antt =====
-- `run` of examples/coding_agent/agent.py, without the prints. `chat` gives what the gateway answers to
-- the k-th request, and `tests` how the tests of the sandbox end.
use Prim.Native.String.{[], ◌∷◌}
use text.Mathlib.Text.{starts_with}
use fleet_llm_inference.Common.{ℕ, String, ◌<>◌, Bool, true, if◌then◌else◌}
use fleet_llm_inference.Common.Raises.{Result}
use fleet_llm_inference.Common.Actions.{Action, pure, lift, get_state, ◌>>=◌, ◌>>◌}
use fleet_llm_inference.CodingAgent.{FilePath, Files, read_file, write_file}

abbrev pub buggy_add : String
buggy_add = "def add(a, b):\n    return a - b"

abbrev pub fixed_add : String
fixed_add = "def add(a, b):\n    return a + b"

abbrev pub skip : String → String → String
skip [] text = text
skip (c ∷ old) [] = ""
skip (c ∷ old) (d ∷ text) = skip old text

-- `old in text`
unfoldable pub contains : String → String → Bool
contains old [] = starts_with "" old
contains old (c ∷ text) =
    let rest = contains old text in if starts_with (c ∷ text) old then true else rest

-- `text.replace(old, new, 1)`
unfoldable pub replace_first : String → String → String → String
replace_first old new [] = if starts_with "" old then new else ""
replace_first old new (c ∷ text) =
    let rest = replace_first old new text in
    if starts_with (c ∷ text) old then new <> skip old (c ∷ text) else c ∷ rest

module _ (root : FilePath) (chat : ℕ → Result String) (tests : Files → Bool) where
  -- Step 4.
  unfoldable pub apply_fix : String → Action Files (Unit {0})
  unfolding contains replace_first write_file
  apply_fix content =
      if contains buggy_add content
      then write_file root "calculator.py" (replace_first buggy_add fixed_add content)
      else pure tt

  -- Whether the tests have passed, and the summary.
  unfoldable pub run : Action Files (Bool × String)
  unfolding apply_fix read_file
  run = do
    understanding ← lift (chat 0)
    content ← read_file root "calculator.py"
    analysis ← lift (chat 1)
    apply_fix content
    s ← get_state
    summary ← lift (chat 2)
    pure (tests s, summary)
