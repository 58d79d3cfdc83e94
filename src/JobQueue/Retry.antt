-- ===== src/JobQueue/Retry.antt =====
-- job_queue/retry.py. `now` is the clock when an entry is dead-lettered. The loop of XAUTOCLAIM runs on
-- fuel, and gives `none` where it runs out.
pub mod Reclaim
pub mod Recover
use fleet_llm_inference.Common.{
  ℕ, zero, suc, String, Bool, true, false, Option, none, some, List, [], ◌∷◌, ◌++◌, ◌==◌, ltb,
  if◌then◌else◌,
}
use fleet_llm_inference.Common.Raises.{Result, ok, raised}
use fleet_llm_inference.Common.Actions.{Action, pure, ◌>>=◌, ◌>>◌}
use fleet_llm_inference.Dict.{Dict}
use fleet_llm_inference.Redis.{Json}
use fleet_llm_inference.Redis.Streams.{Streams, Entry}
use fleet_llm_inference.JobQueue.Fields.{decode_entries}
use fleet_llm_inference.JobQueue.Stream.{Queue, ack, TimeText, dead_letter}

pub record RecoveryResult (V : Type 0) : Type 0 where
  pub retryable : List (String × Dict V)
  pub dead_lettered : List String

abbrev pub or_zero : Option ℕ → ℕ
or_zero none = 0
or_zero (some n) = n

abbrev pub is_nil {ℓ} : {A : Type ℓ} → List A → Bool
is_nil [] = true
is_nil (x ∷ xs) = false

abbrev pub before {ℓ} : {A : Type ℓ} → List A → Option (List A) → Option (List A)
before xs none = none
before xs (some ys) = some (xs ++ ys)

module _ (R : Streams) (q : Queue) where
  unfoldable pub delivery_count : R.State → String → ℕ
  delivery_count s entry_id = or_zero (R.delivered s q.stream_key q.group_name entry_id)

  -- `self._delivery_count(entry_id)`, as a call
  abbrev pub count_of : String → Action R.State ℕ
  count_of entry_id s = (s, ok (delivery_count s entry_id))

  abbrev pub claim : ℕ → String → Action R.State (String × List Entry)
  claim min_idle_ms cursor s =
      let (s', next, entries) =
        R.xautoclaim s q.stream_key q.group_name q.consumer_name min_idle_ms cursor 50 in
      (s', ok (next, entries))

module _ {V : Type 0} (R : Streams) (json : Json V) (q : Queue) where
  abbrev pub decoded : List Entry → Action R.State (List (String × Dict V))
  decoded entries s = (s, decode_entries json entries)

  unfoldable pub reclaim_stale : ℕ → ℕ → String → Action R.State (Option (List (String × Dict V)))
  unfolding decode_entries
  reclaim_stale zero min_idle_ms cursor = pure none
  reclaim_stale (suc fuel) min_idle_ms cursor = do
    claimed ← claim R q min_idle_ms cursor
    batch ← decoded claimed.1
    let others = reclaim_stale fuel min_idle_ms claimed.0
    (if (if claimed.0 == "0-0" then true else is_nil claimed.1)
        then pure (some batch)
        else (do rest ← others; pure (before batch rest)))

module _ {V : Type 0} where
  abbrev pub add_retryable : (String × Dict V) → RecoveryResult V → RecoveryResult V
  add_retryable e r = record r { retryable = e ∷ r.retryable }

  abbrev pub add_dead : String → RecoveryResult V → RecoveryResult V
  add_dead i r = record r { dead_lettered = i ∷ r.dead_lettered }

module _ {F V : Type 0} (R : Streams) (json : Json V) (payloads : Json (Dict V))
    (times : TimeText F) (dlq_key : String) (q : Queue) where
  -- The loop over the reclaimed entries.
  unfoldable pub split :
      ℕ → (String → F) → List (String × Dict V) → Action R.State (RecoveryResult V)
  unfolding delivery_count dead_letter ack
  split max_retries now [] = pure (record { retryable = []; dead_lettered = [] })
  split max_retries now ((entry_id, payload) ∷ reclaimed) = do
    count ← count_of R q entry_id
    let others = split max_retries now reclaimed
    (if ltb max_retries count
        then (do
          dead_letter R payloads times dlq_key entry_id payload "max_retries_exceeded"
              (now entry_id)
          ack R q entry_id
          r ← others
          pure (add_dead entry_id r))
        else (do r ← others; pure (add_retryable (entry_id, payload) r)))

  abbrev pub split_all :
      ℕ
      → (String → F)
      → Option (List (String × Dict V))
      → Action R.State (Option (RecoveryResult V))
  split_all max_retries now none = pure none
  split_all max_retries now (some reclaimed) = do r ← split max_retries now reclaimed; pure (some r)

  unfoldable pub recover : ℕ → ℕ → ℕ → (String → F) → Action R.State (Option (RecoveryResult V))
  unfolding reclaim_stale split
  recover fuel max_retries min_idle_ms now = do
    reclaimed ← reclaim_stale R json q fuel min_idle_ms "0-0"
    split_all max_retries now reclaimed
