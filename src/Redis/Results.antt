-- ===== src/Redis/Results.antt =====
-- What the worker pool asks of Redis for its results. SETEX may raise, and other clients may change the
-- state between two commands.
use fleet_llm_inference.Common.{ℕ, String, ◌≡◌, refl, Option, none, some, eq_refl}
use fleet_llm_inference.Common.Raises.{Result, ok}
use fleet_llm_inference.Dict
use fleet_llm_inference.Dict.{Dict, get-put, get-pop}

pub record ResultStore : Type 1 where
  pub State : Type 0
  pub get : State → String → Option String
  -- The key, the seconds to live, and the value.
  pub setex : State → String → ℕ → String → State × Result (Unit {0})
  pub delete : State → String → State

pub record IsResultStore (K : ResultStore) : Type 0 where
  pub get-setex :
      (s : K.State) (k : String) (seconds : ℕ) (v : String)
      → (K.setex s k seconds v).1 ≡ ok tt
      → K.get (K.setex s k seconds v).0 k ≡ some v
  pub get-delete : (s : K.State) (k : String) → K.get (K.delete s k) k ≡ none

-- A dictionary meets both.
abbrev pub result_dict : ResultStore
result_dict = record {
  State = Dict String;
  get = λ s k. Dict.get s k;
  setex = λ s k seconds v. (Dict.put s k v, ok tt);
  delete = λ s k. Dict.pop s k;
}

pub result_dict-IsResultStore : IsResultStore result_dict
result_dict-IsResultStore = record {
  get-setex = λ s k seconds v e. rw (get-put s k k v) (rw (eq_refl k) refl);
  get-delete = λ s k. rw (get-pop s k k) (rw (eq_refl k) refl);
}
