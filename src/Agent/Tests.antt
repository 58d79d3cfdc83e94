-- ===== src/Agent/Tests.antt =====
-- A session of a worker agent.
use fleet_llm_inference.Common.{
  ◌≤◌, length, ℕ, ◌≡◌, refl, true, false, none, some, List, [], ◌∷◌, All,
}
use fleet_llm_inference.Common.Raises.{ok, raised, key_error}
use fleet_llm_inference.Agent.Session.{Arguments, Detected, Sent, deregistration, run}
use fleet_llm_inference.Agent.Session.Goodbye.{IsOwn, run-goodbye}

abbrev args : Arguments ℕ
args = record {
  worker_id = "laptop";
  worker_url = "http://laptop:11434";
  name = "laptop";
  ram_gb = some 16;
  vram_gb = none;
  no_gpu = false;
  once = false;
  no_deregister_on_exit = false;
}

abbrev machine : Detected ℕ
machine = record { ram_gb = 8; gpu = (true, none); models = raised key_error }

-- The second heartbeat raises.
run-goodbye_example :
    (sent : List (Sent ℕ)) × All (IsOwn args) sent
    × (1 ≤ length sent)
    × ((run args machine
          (some (200, ok tt))
          ((machine, none) ∷ (machine, some (200, raised key_error)) ∷ [])
          []).0
        ≡ deregistration "laptop" ∷ sent)
run-goodbye_example =
    run-goodbye args machine (some (200, ok tt))
      ((machine, none) ∷ (machine, some (200, raised key_error)) ∷ []) true refl refl
