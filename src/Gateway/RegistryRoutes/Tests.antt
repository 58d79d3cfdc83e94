-- ===== src/Gateway/RegistryRoutes/Tests.antt =====
-- The registry's routes at one worker.
use fleet_llm_inference.Common.{ℕ, ◌≡◌, refl, false, none, some, []}
use fleet_llm_inference.Common.Raises.{ok, raised, http}
use fleet_llm_inference.Dict
use fleet_llm_inference.Dict.{empty, lookup}
use fleet_llm_inference.Redis.Memory.{memory_store, memory_store-IsKeyStore}
use fleet_llm_inference.Registry.Profiles.{profile}
use fleet_llm_inference.Registry.Tests.{no_workers, worker_json, worker_json-IsJson}
use fleet_llm_inference.Registry.{keep_registered_at}
use fleet_llm_inference.Gateway.Tests.{gateway}
use fleet_llm_inference.Gateway.RegistryRoutes.{
  RegistrationRequest, worker_record, register_worker, deregister_worker,
}
use fleet_llm_inference.Gateway.RegistryRoutes.Lifecycle.{deregister_worker-register_worker}

abbrev laptop : RegistrationRequest ℕ
laptop = record {
  worker_id = "laptop";
  url = "http://laptop:11434";
  name = none;
  ram_gb = 16;
  has_gpu = false;
  vram_gb = none;
  models = [];
}

nothing :
    profile memory_store worker_json memory_store-IsKeyStore worker_json-IsJson no_workers "laptop"
    ≡ ok none
unfolding empty Dict.get lookup
nothing = refl

deregister_worker-register_worker_example :
    let (registered, saved) =
      register_worker memory_store worker_json laptop (some "key") 3 (gateway 8, no_workers) in
    let (removed, answer) = deregister_worker memory_store "laptop" (some "key") registered in
    (saved ≡ ok (keep_registered_at none (worker_record laptop 3)))
    × (answer ≡ ok "laptop")
    × (profile memory_store worker_json memory_store-IsKeyStore worker_json-IsJson removed.1
          "laptop"
        ≡ ok none)
    × ((deregister_worker memory_store "laptop" (some "key") removed).1 ≡ raised (http 404))
deregister_worker-register_worker_example =
    deregister_worker-register_worker memory_store worker_json memory_store-IsKeyStore
      worker_json-IsJson (gateway 8) no_workers laptop "key" 3 none refl nothing
