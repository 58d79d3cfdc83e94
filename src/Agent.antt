-- ===== src/Agent.antt =====
-- scripts/worker_agent.py: the id and the address of a worker, and its session with the gateway. The
-- detection of the hardware, and HTTP, are left out: what they give is an argument.
pub mod Identity
pub mod Session
mod Tests
use Prim.Native.String.{[], ◌∷◌}
use Prim.Native.Char.{code}
use fleet_llm_inference.Common.{
  ℕ, String, ◌<>◌, Bool, true, false, Option, none, some, List, truthy, ◌==◌, eqb, if◌then◌else◌,
}
use fleet_llm_inference.Common.Raises.{Exception, Result, ok, raised}
use fleet_llm_inference.Common.Actions.{Action, pure}

-- The file `worker_id` of the state directory, `none` where it is not there.
abbrev pub StateDir : Type 0
StateDir = Option String

-- `f"{socket.gethostname().lower()}-{uuid.uuid4().hex[:6]}"`
abbrev pub fresh_id : (String → String) → String → String → String
fresh_id lower hostname hex = lower hostname <> ("-" <> hex)

module _ (strip lower : String → String) where
  -- The stripped text of the file, where there is some.
  abbrev pub existing_id : StateDir → Option String
  existing_id none = none
  existing_id (some file) = truthy (some (strip file))

  -- `hex` are the digits of a fresh uuid4.
  unfoldable pub get_or_create_worker_id : Option String → String → String → Action StateDir String
  get_or_create_worker_id override hostname hex file = elim (truthy override) [
    | some id ↦ (file, ok id)
    | none ↦ elim (existing_id file) [
      | some id ↦ (file, ok id)
      | none ↦ (some (fresh_id lower hostname hex), ok (fresh_id lower hostname hex))
    ]
  ]

-- `[m["name"] for m in data.get("models", []) if m.get("name")]`, by the names of the models
unfoldable pub names_of : List (Option String) → List String
names_of List.[] = List.[]
names_of (List.◌∷◌ name models) = elim (truthy name) [
  | none ↦ names_of models
  | some n ↦ List.◌∷◌ n (names_of models)
]

-- `c in text`
unfoldable pub has_char : ℕ → String → Bool
has_char k [] = false
has_char k (c ∷ s) = if eqb (code c) k then true else has_char k s

-- `text.rsplit(c, 1)[-1]`
unfoldable pub after_last : ℕ → String → String
unfolding has_char
after_last k [] = ""
after_last k (c ∷ s) =
    let rest = after_last k s in if has_char k s then rest else if eqb (code c) k then s else c ∷ s

-- `text.split(c)[0]`
unfoldable pub before_first : ℕ → String → String
before_first k [] = ""
before_first k (c ∷ s) = let rest = before_first k s in if eqb (code c) k then "" else c ∷ rest

-- `except ValueError: pass`; `read` is `int`, over a type of integers with their texts.
abbrev pub read_or : {I : Type 0} → I → Result I → I
read_or default (ok port) = port
read_or default (raised e) = default

module _ {I : Type 0} (read : String → Result I) (default : I) where
  unfoldable pub port_of : String → I
  unfolding has_char after_last before_first
  port_of ollama_url =
      if has_char b':' (after_last b'/' ollama_url)
      then read_or default (read (before_first b'/' (after_last b':' ollama_url)))
      else default

  -- The address at which the gateway reaches the worker; the default port is 11434.
  unfoldable pub default_worker_url : (I → String) → String → String → String
  unfolding port_of
  default_worker_url show lan_ip ollama_url =
      "http://" <> (lan_ip <> (":" <> show (port_of ollama_url)))
