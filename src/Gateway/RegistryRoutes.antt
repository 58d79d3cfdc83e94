-- ===== src/Gateway/RegistryRoutes.antt =====
-- The routes /registry/register, /registry and /registry/{worker_id} of gateway/routes.py. `now` is
-- the clock that gives a new record its two times.
pub mod Lifecycle
mod Tests
use fleet_llm_inference.Common.{
  String, ◌≡◌, Bool, true, false, Option, none, some, List, if◌then◌else◌, not, ap, refl, arith,
}
use fleet_llm_inference.Common.Raises.{Result, ok, raised, http}
use fleet_llm_inference.Common.Actions.{Action, pure, raise, ◌>>=◌, ◌>>◌}
use fleet_llm_inference.Redis.{KeyStore, IsKeyStore, holds, Json, IsJson}
use fleet_llm_inference.Registry.{WorkerRecord, register, list_workers, deregister, key}
use fleet_llm_inference.Gateway.{Gateway, text_or, verify_api_key}

pub record RegistrationRequest (F : Type 0) : Type 0 where
  pub worker_id : String
  pub url : String
  pub name : Option String
  pub ram_gb : F
  pub has_gpu : Bool
  pub vram_gb : Option F
  pub models : List String

-- An action on the gateway, and one on the registry.
module _ {G S A : Type 0} where
  abbrev pub on_gateway : Action G A → Action (G × S) A
  on_gateway m (g, s) = let (g', r) = m g in ((g', s), r)

  abbrev pub on_registry : Action S A → Action (G × S) A
  on_registry m (g, s) = let (s', r) = m s in ((g, s'), r)

-- What the route answers is the id.
abbrev pub answer_removed : {S : Type 0} → String → Bool → Action S String
answer_removed worker_id removed = if removed then pure worker_id else raise (http 404)

module _ {F : Type 0} where
  unfoldable pub worker_record : RegistrationRequest F → F → WorkerRecord F
  worker_record req now = record {
    worker_id = req.worker_id;
    url = req.url;
    name = text_or req.name req.worker_id;
    ram_gb = req.ram_gb;
    has_gpu = req.has_gpu;
    vram_gb = req.vram_gb;
    models = req.models;
    registered_at = now;
    last_heartbeat = now;
  }

  module _ (K : KeyStore) (json : Json (WorkerRecord F)) where
    unfoldable pub register_worker :
        RegistrationRequest F → Option String → F → Action (Gateway F × K.State) (WorkerRecord F)
    unfolding verify_api_key register worker_record
    register_worker req x_api_key now = do
      on_gateway (verify_api_key x_api_key)
      on_registry (register K json (worker_record req now))

    unfoldable pub list_registered_workers :
        Option String → Action (Gateway F × K.State) (List (WorkerRecord F))
    unfolding verify_api_key list_workers
    list_registered_workers x_api_key = do
      on_gateway (verify_api_key x_api_key)
      on_registry (list_workers K json)

  unfoldable pub deregister_worker :
      (K : KeyStore) → String → Option String → Action (Gateway F × K.State) String
  unfolding verify_api_key deregister
  deregister_worker K worker_id x_api_key = do
    on_gateway (verify_api_key x_api_key)
    removed ← on_registry (deregister K worker_id)
    answer_removed worker_id removed
