-- ===== src/Gateway/Reports.antt =====
-- The routes /health and /workers of gateway/routes.py. `status` gives what each worker answers to its
-- health check, `awaited` what goes on in the balancer meanwhile (the rest of the gateway is not read),
-- and `worker_count` is the number that the autoscaler counts.
use fleet_llm_inference.Common.{ℕ, String, Option, List}
use fleet_llm_inference.Common.Floats.{Floats}
use fleet_llm_inference.Common.Raises.{ok}
use fleet_llm_inference.Common.Actions.{Action, pure, lift, get_state, ◌>>=◌, ◌>>◌}
use fleet_llm_inference.Router.Balancer.Health.{
  WorkerReport, Awaited, health_check_all, get_worker_stats,
}
use fleet_llm_inference.Gateway.{Gateway, verify_api_key}

-- The status "ok" is left out: there is no other.
pub record HealthReport (F : Type 0) : Type 0 where
  pub queue_depth : ℕ
  pub worker_count : ℕ
  pub workers : List (WorkerReport F)

module _ {F : Type 0} (ops : Floats F) (status : ℕ → Option ℕ) (awaited : Awaited F) where
  -- `health_check_all` of the load balancer, as a call
  unfoldable pub check_all : Action (Gateway F) (Unit {0})
  unfolding health_check_all
  check_all g = (record g { balancer = health_check_all status awaited g.balancer }, ok tt)

  unfoldable pub workers : Option String → Action (Gateway F) (List (WorkerReport F))
  unfolding verify_api_key check_all get_worker_stats
  workers x_api_key = do
    verify_api_key x_api_key
    check_all
    g ← get_state
    lift (get_worker_stats ops g.balancer)

  unfoldable pub health : ℕ → (Gateway F → ℕ) → Action (Gateway F) (HealthReport F)
  unfolding check_all get_worker_stats
  health depth worker_count = do
    check_all
    g ← get_state
    reports ← lift (get_worker_stats ops g.balancer)
    pure (record { queue_depth = depth; worker_count = worker_count g; workers = reports })
