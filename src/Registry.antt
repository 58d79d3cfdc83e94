-- ===== src/Registry.antt =====
-- registry/models.py and registry/store.py, over Redis. Each method runs with no other command between
-- its own.
pub mod Profiles
pub mod Listing
pub mod Tests
use fleet_llm_inference.Common.{ℕ, String, ◌<>◌, Bool, Option, none, some, List, [], ◌∷◌, map}
use fleet_llm_inference.Common.Raises.{Result, ok, raised}
use fleet_llm_inference.Common.Actions.{Action, pure, lift, ◌>>=◌, ◌>>◌}
use fleet_llm_inference.Redis.{KeyStore, holds, Json}

pub record WorkerRecord (F : Type 0) : Type 0 where
  pub worker_id : String
  pub url : String
  pub name : String
  pub ram_gb : F
  pub has_gpu : Bool
  pub vram_gb : Option F
  pub models : List String
  pub registered_at : F
  pub last_heartbeat : F

abbrev pub worker_key_prefix : String
worker_key_prefix = "fleet:registry:worker:"

abbrev pub workers_set_key : String
workers_set_key = "fleet:registry:workers"

-- `_key`
abbrev pub key : String → String
key worker_id = worker_key_prefix <> worker_id

-- A re-registration keeps the time of the first one.
abbrev pub keep_registered_at :
    {F : Type 0} → Option (WorkerRecord F) → WorkerRecord F → WorkerRecord F
keep_registered_at none r = r
keep_registered_at (some existing) r = record r { registered_at = existing.registered_at }

abbrev pub found : {A : Type 0} → Result A → Result (Option A)
found (ok a) = ok (some a)
found (raised e) = raised e

abbrev pub forget : (K : KeyStore) → String → Action K.State (Unit {0})
forget K worker_id s = (K.srem s workers_set_key worker_id, ok tt)

module _ {F : Type 0} (K : KeyStore) (json : Json (WorkerRecord F)) where
  -- The record of what GET has answered.
  abbrev pub parsed : Option String → Result (Option (WorkerRecord F))
  parsed none = ok none
  parsed (some raw) = found (json.loads raw)

  unfoldable pub get_worker : String → Action K.State (Option (WorkerRecord F))
  get_worker worker_id s = (s, parsed (K.get s (key worker_id)))

  abbrev pub save : WorkerRecord F → Action K.State (WorkerRecord F)
  save r s = (K.sadd (K.set s (key r.worker_id) (json.dumps r)) workers_set_key r.worker_id, ok r)

  unfoldable pub register : WorkerRecord F → Action K.State (WorkerRecord F)
  unfolding get_worker
  register r = do existing ← get_worker r.worker_id; save (keep_registered_at existing r)

  -- The loop over `zip(ids, raw_values)`.
  unfoldable pub collect : List (String × Option String) → Action K.State (List (WorkerRecord F))
  collect [] = pure []
  collect ((worker_id, none) ∷ rest) = do forget K worker_id; collect rest
  collect ((worker_id, some raw) ∷ rest) = do
    r ← lift (json.loads raw)
    workers ← collect rest
    pure (r ∷ workers)

  unfoldable pub list_workers : Action K.State (List (WorkerRecord F))
  unfolding collect
  list_workers s =
      collect (map (λ (i : String). (i, K.get s (key i))) (K.smembers s workers_set_key)) s

unfoldable pub deregister : (K : KeyStore) → String → Action K.State Bool
deregister K worker_id s =
    (K.srem (K.delete s (key worker_id)) workers_set_key worker_id, ok (holds K s (key worker_id)))
