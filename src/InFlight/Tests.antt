-- ===== src/InFlight/Tests.antt =====
-- A concrete run: a request arrives, and a worker joins while it waits.
use fleet_llm_inference.Common.{ℕ, ◌≤◌, ◌≡◌, refl, none, some, [], ◌∷◌, false, All, length, sum_by}
use fleet_llm_inference.Dict
use fleet_llm_inference.Samples.{whole, stamp}
use fleet_llm_inference.Workers.Client.{OllamaClient, new_client}
use fleet_llm_inference.Router.Breaker.{new_breaker}
use fleet_llm_inference.Router.Balancer.{
  new_balancer, add_all, add_client, add_worker, pick_worker, available_workers, passing_workers,
  is_passing, choose,
}
use fleet_llm_inference.Gateway.{GenerateRequest, agent_metadata}
use fleet_llm_inference.Gateway.Routes.{generate_before}
use fleet_llm_inference.Gateway.Tests.{gateway, settings}
use fleet_llm_inference.InFlight.{System, Step, Reach, count, begun, third_handle, with_balancer}
use fleet_llm_inference.InFlight.Reached.{Reach-counted}

abbrev request : GenerateRequest
request = record {
  agent = record {
    agent_id = none;
    workflow_id = none;
    request_id = some "r";
    parent_request_id = none;
  };
  prompt = "hello";
  model = none;
  stream = false;
}

abbrev started : System ℕ
started = record {
  gateway = record (gateway 8) { balancer = new_balancer whole (settings 8) ("a" ∷ []) };
  in_flight = [];
}

abbrev waiting : System ℕ
waiting =
    begun third_handle started
      (generate_before whole request (some "key") "uuid" 5 stamp started.gateway)

abbrev joined : System ℕ
joined = with_balancer waiting (add_worker whole waiting.gateway.balancer "b").0

joined-Reach : Reach whole (gateway 8) (settings 8) ("a" ∷ []) joined
joined-Reach =
    Reach.later
      (Reach.later Reach.start (Step.generate_arrives request (some "key") "uuid" 5 stamp))
      (Step.worker_joins "b")

-- The request is in flight at the first worker.
joined_lem : joined.in_flight ≡ 0 ∷ []
unfolding generate_before new_balancer add_all add_client new_client pick_worker available_workers
    passing_workers is_passing choose new_breaker agent_metadata Dict.get Dict.put Dict.empty
joined_lem = refl

Reach-counted_example :
    All
      (λ (w : OllamaClient ℕ). w.stats.active_requests ≡ count w.handle joined.in_flight)
      joined.gateway.balancer.workers
    × (sum_by (λ (w : OllamaClient ℕ). w.stats.active_requests) joined.gateway.balancer.workers
        ≤ length joined.in_flight)
Reach-counted_example = Reach-counted whole joined-Reach
