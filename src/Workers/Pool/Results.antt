-- ===== src/Workers/Pool/Results.antt =====
-- `_store_result` and `get_result` of workers/worker_pool.py. `wait` is what other clients do to the
-- state during the sleep after a poll.
use fleet_llm_inference.Common.{
  ℕ, zero, suc, ◌*◌, ◌<◌, String, ◌<>◌, ◌≡◌, refl, ◌∙◌, Option, none, some, ◌==◌, truthy, arith,
  false,
}
use fleet_llm_inference.Common.Raises.{Result, ok, raised}
use fleet_llm_inference.Common.Actions.{Action}
use fleet_llm_inference.Redis.{Json, IsJson}
use fleet_llm_inference.Redis.Results.{ResultStore}

abbrev pub result_prefix : String
result_prefix = "llm:result:"

abbrev pub result_key : String → String
result_key request_id = result_prefix <> request_id

abbrev pub given : {A : Type 0} → Result A → Result (Option A)
given (ok a) = ok (some a)
given (raised e) = raised e

module _ {A : Type 0} (K : ResultStore) (json : Json A) where
  unfoldable pub store_result : String → A → Action K.State (Unit {0})
  store_result request_id result s = K.setex s (result_key request_id) 300 (json.dumps result)

  -- The loop over `range(timeout * 2)`.
  unfoldable pub poll : (K.State → K.State) → ℕ → String → Action K.State (Option A)
  poll wait zero key s = (s, ok none)
  poll wait (suc n) key s = elim (truthy (K.get s key)) [
    | none ↦ poll wait n key (wait s)
    | some result ↦ (K.delete s key, given (json.loads result))
  ]

  unfoldable pub get_result : (K.State → K.State) → String → ℕ → Action K.State (Option A)
  unfolding poll
  get_result wait request_id timeout = poll wait (timeout * 2) (result_key request_id)

  -- The state at a poll, as long as the polls find nothing.
  abbrev pub at_poll : (K.State → K.State) → ℕ → K.State → K.State
  at_poll wait zero s = s
  at_poll wait (suc k) s = at_poll wait k (wait s)

  -- The first k polls find no result.
  abbrev pub IsQuiet : (K.State → K.State) → String → ℕ → K.State → Type 0
  IsQuiet wait key zero s = Unit
  IsQuiet wait key (suc k) s = (truthy (K.get s key) ≡ none) × IsQuiet wait key k (wait s)

  poll-finds :
      (wait : K.State → K.State) (n k : ℕ) (key raw : String) (s : K.State)
      → k < n
      → IsQuiet wait key k s
      → truthy (K.get (at_poll wait k s) key) ≡ some raw
      → poll wait n key s ≡ (K.delete (at_poll wait k s) key, given (json.loads raw))
  unfolding poll
  poll-finds wait zero k key raw s h q f = absurd (omega arith)
  poll-finds wait (suc n) zero key raw s h q f = ground (arith, f)
  poll-finds wait (suc n) (suc k) key raw s h q f =
      ground (arith, q.0, poll-finds wait n k key raw (wait s) (omega arith) q.1 f)

  poll-quiet :
      (wait : K.State → K.State) (n : ℕ) (key : String) (s : K.State)
      → IsQuiet wait key n s
      → poll wait n key s ≡ (at_poll wait n s, ok none)
  unfolding poll
  poll-quiet wait zero key s q = refl
  poll-quiet wait (suc n) key s q = ground (arith, q.0, poll-quiet wait n key (wait s) q.1)

  -- When the first poll that finds something is among the `timeout * 2`, and finds an encoded result,
  -- the result is returned and its key is deleted; when none of them does, the call ends with nothing.
  pub get_result_lem :
      (J : IsJson json) (wait : K.State → K.State) (request_id : String) (timeout : ℕ) (s : K.State)
      → ((k : ℕ) (result : A)
          → k < timeout * 2
          → IsQuiet wait (result_key request_id) k s
          → K.get (at_poll wait k s) (result_key request_id) ≡ some (json.dumps result)
          → (json.dumps result == "") ≡ false
          → get_result wait request_id timeout s
            ≡ (K.delete (at_poll wait k s) (result_key request_id), ok (some result)))
        × (IsQuiet wait (result_key request_id) (timeout * 2) s
            → get_result wait request_id timeout s ≡ (at_poll wait (timeout * 2) s, ok none))
  unfolding get_result
  get_result_lem J wait request_id timeout s = (
    λ k result h q f e.
        poll-finds wait (timeout * 2) k (result_key request_id) (json.dumps result) s h q
          (rw f (rw e refl))
        ∙ rw (J.loads-dumps result) refl,
    λ q. poll-quiet wait (timeout * 2) (result_key request_id) s q,
  )
