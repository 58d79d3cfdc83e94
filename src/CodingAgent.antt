-- ===== src/CodingAgent.antt =====
-- The tools of examples/coding_agent/tools.py. A path is the list of its names from the root of the
-- file system, and `root` stands for SANDBOX_ROOT. A line ends in "\n" in the files.
pub mod Sandbox
pub mod Agent
pub mod Tests
use fleet_llm_inference.Common.{
  ℕ, String, Bool, true, false, ◌||◌, not, Option, none, some, List, [], ◌∷◌, ◌++◌, map, ◌==◌, any,
  if◌then◌else◌,
}
use fleet_llm_inference.Common.Newlines.{newlines_after, universal_newlines}
use fleet_llm_inference.Common.Split.{split}
use fleet_llm_inference.Common.Raises.{Result, ok, raised, value_error, os_error}
use fleet_llm_inference.Common.Actions.{Action, pure, raise, lift, get_state, ◌>>=◌, ◌>>◌}

abbrev pub FilePath : Type 0
FilePath = List String

-- What a file holds: a text of the encoding in use, or bytes that are none.
pub data Content : Type 0 where
  text : String → Content
  undecodable : Content

-- `encodes` tells the texts that the encoding has: for UTF-8, those without a lone surrogate.
-- `links` gives where a symbolic link ends, after all links on the way.
pub record Files : Type 0 where
  pub contents : FilePath → Option Content
  pub encodes : String → Bool
  pub is_directory : FilePath → Bool
  pub links : FilePath → Option FilePath

abbrev pub same_path : FilePath → FilePath → Bool
same_path [] [] = true
same_path [] (y ∷ ys) = false
same_path (x ∷ xs) [] = false
same_path (x ∷ xs) (y ∷ ys) = if x == y then same_path xs ys else false

-- `path.parents`, from the root of the file system on
unfoldable pub parents : FilePath → List FilePath
parents [] = []
parents (name ∷ names) = [] ∷ map (λ (p : FilePath). name ∷ p) (parents names)

-- `path.parent`
abbrev pub parent : FilePath → FilePath
parent [] = []
parent (name ∷ []) = []
parent (name ∷ other ∷ names) = name ∷ parent (other ∷ names)

abbrev pub end_of : FilePath → Option FilePath → FilePath
end_of path none = path
end_of path (some target) = target

-- `path.resolve()`, for the names that come after `base`.
unfoldable pub resolve_from : Files → FilePath → List String → FilePath
resolve_from s base [] = base
resolve_from s base (name ∷ names) =
    resolve_from s
      (if (name == "") || (name == ".")
        then base
        else if name == ".."
        then parent base
        else end_of (base ++ name ∷ []) (s.links (base ++ name ∷ [])))
      names

-- `base / path`: an absolute path replaces the base.
abbrev pub start_of : FilePath → List String → FilePath
start_of root (first ∷ second ∷ names) = if first == "" then [] else root
start_of root names = root

-- `resolved == SANDBOX_ROOT or SANDBOX_ROOT in resolved.parents`
unfoldable pub in_sandbox : FilePath → FilePath → Bool
unfolding parents
in_sandbox root resolved = same_path resolved root || any (same_path root) (parents resolved)

unfoldable pub resolve : FilePath → String → Action Files FilePath
unfolding resolve_from in_sandbox split
resolve root path s =
    let names = split b'/' path in
    let resolved = resolve_from s (start_of root names) names in
    (s, if in_sandbox root resolved then ok resolved else raised value_error)

-- A UnicodeDecodeError is a ValueError.
abbrev pub read_content : Option Content → Result String
read_content none = raised os_error
read_content (some undecodable) = raised value_error
read_content (some (text content)) = ok (universal_newlines content)

unfoldable pub read_text : FilePath → Action Files String
unfolding newlines_after
read_text path s = (s, read_content (s.contents path))

abbrev pub with_content : FilePath → String → Files → Files
with_content path content s = record s {
  contents = λ p. if same_path p path then some (text content) else s.contents p;
}

-- A file is written where its directory is there, and no directory has its name. It is emptied first: a
-- text that the encoding does not have raises a UnicodeEncodeError, a ValueError, after that.
unfoldable pub write_text : FilePath → String → Action Files (Unit {0})
write_text path content s =
    if s.is_directory (parent path)
    then if s.is_directory path
      then (s, raised os_error)
      else if s.encodes content
      then (with_content path content s, ok tt)
      else (with_content path "" s, raised value_error)
    else (s, raised os_error)

unfoldable pub read_file : FilePath → String → Action Files String
unfolding resolve read_text
read_file root path = do resolved ← resolve root path; read_text resolved

unfoldable pub write_file : FilePath → String → String → Action Files (Unit {0})
unfolding resolve write_text
write_file root path content = do resolved ← resolve root path; write_text resolved content
