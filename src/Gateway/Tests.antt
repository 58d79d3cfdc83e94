-- ===== src/Gateway/Tests.antt =====
-- Concrete runs of gateway/routes.py.
use fleet_llm_inference.Common.{
  ℕ, String, ◌≡◌, ◌≢◌, ◌≤◌, ◌+◌, refl, none, some, [], ◌∷◌, arith, length,
}
use fleet_llm_inference.Common.Raises.{ok, raised, http, runtime_error}
use fleet_llm_inference.Gateway.Middleware.{
  HttpRequest, Metrics, new_metrics, middleware_before, middleware_after, idle, arrives, answers,
  raises, Served-gauge,
}
use fleet_llm_inference.Dict
use fleet_llm_inference.Dict.{Dict, lookup, write}
use fleet_llm_inference.Samples.{whole, stamp}
use fleet_llm_inference.Context.Models.{estimate_tokens}
use fleet_llm_inference.Context.Store.{init, total_tokens, list_for_workflow, present, of_type}
use fleet_llm_inference.Context.Store.Invariant.{init-IsConsistent}
use fleet_llm_inference.Workers.Client.{OllamaClient, new_client}
use fleet_llm_inference.Router.Breaker.{new_breaker, is_open}
use fleet_llm_inference.Router.Balancer.{Settings, new_balancer, add_all, add_client}
use fleet_llm_inference.Router.Balancer.Eligible.{IsServing, eligible}
use fleet_llm_inference.Router.Balancer.Pick.{IsFit}
use fleet_llm_inference.Router.Balancer.Registry.{new_balancer-IsPool}
use fleet_llm_inference.Gateway.{
  Gateway, agent_metadata, admit, count_failure, tokens_with, context_with,
}
use fleet_llm_inference.Workers.Pool.{Job, dispatch, content_of}
use fleet_llm_inference.Workers.Pool.Dispatch.{dispatch_lem}
use fleet_llm_inference.Gateway.Requests.{admit-routed, admit-refused}

abbrev pub settings : ℕ → Settings
settings capacity = record {
  request_timeout = 120;
  worker_max_context_tokens = capacity;
  circuit_breaker_threshold = 3;
  circuit_breaker_timeout = 30;
  routing_strategy = "least_latency";
}

abbrev pub gateway : ℕ → Gateway ℕ
gateway capacity = record {
  config = record { api_key = "key"; default_model = "llama" };
  balancer = new_balancer whole (settings capacity) ("a" ∷ []);
  contexts = init;
  agent_requests = [];
  failures = [];
  background = [];
}

serving : (capacity : ℕ) → IsServing (gateway capacity).balancer
serving capacity = (new_balancer-IsPool whole (settings capacity) ("a" ∷ []) (refl, tt)).0.serving

abbrev meta : Dict String
meta =
    agent_metadata
      (record {
        agent_id = some "planner";
        workflow_id = some "w";
        request_id = some "r";
        parent_request_id = none;
      })
      "uuid"

some_worker :
    eligible
      (gateway 8).balancer
      5
      (some (total_tokens (gateway 8).contexts "w" + estimate_tokens "hello"))
    ≢ []
unfolding eligible new_balancer add_all add_client new_client is_open new_breaker estimate_tokens
    total_tokens list_for_workflow present of_type init Dict.get Dict.put lookup write Dict.empty
some_worker = λ e. ground arith

named : Dict.get meta "workflow_id" ≡ some "w"
unfolding agent_metadata Dict.get Dict.put lookup write Dict.empty
named = refl

fresh : Dict.get (gateway 8).contexts.items "new" ≡ none
unfolding init Dict.get lookup Dict.empty
fresh = refl

admit-routed_example :
    let (g', r) = admit whole meta "/generate" "hello" 5 stamp (gateway 8) in
    (v : OllamaClient ℕ) × (r ≡ ok v)
    × IsFit (gateway 8).balancer 5 (some (total_tokens g'.contexts "w")) v
    × (total_tokens g'.contexts "w"
        ≡ total_tokens (gateway 8).contexts "w" + estimate_tokens "hello")
    × (total_tokens g'.contexts "w" ≤ v.max_context_tokens)
    × (g'.failures ≡ (gateway 8).failures)
admit-routed_example =
    admit-routed whole (gateway 8) meta "/generate" "hello" "w" 5 stamp (serving 8)
      init-IsConsistent fresh named refl some_worker

nobody :
    eligible
      (gateway 0).balancer
      5
      (tokens_with (Dict.get meta "workflow_id") "hello" (gateway 0).contexts)
    ≡ []
unfolding agent_metadata eligible new_balancer add_all add_client new_client is_open new_breaker
    estimate_tokens total_tokens list_for_workflow present of_type init Dict.get Dict.put lookup
    write Dict.empty
nobody = refl

admit-refused_example :
    let (g', r) = admit whole meta "/generate" "hello" 5 stamp (gateway 0) in
    (r ≡ raised (http 503))
    × (g'.contexts ≡ (gateway 0).contexts)
    × (g'.background ≡ (gateway 0).background)
    × (g'.failures ≡ (count_failure (Dict.get meta "workflow_id") "/generate" (gateway 0)).failures)
admit-refused_example =
    admit-refused whole (gateway 0) meta "/generate" "hello" 5 stamp (serving 0) nobody

abbrev job : Job
job = record {
  request_id = "r";
  model = "llama";
  prompt = some "hello";
  messages = none;
  agent_id = none;
  workflow_id = some "w";
  context_tokens = some 1;
}

dispatch_lem_example :
    let (g', r) = dispatch whole job 5 stamp (gateway 8) in
    (eligible (gateway 8).balancer 5 (some 1) ≢ []
      → (v : OllamaClient ℕ) × (r ≡ ok (some v))
        × IsFit (gateway 8).balancer 5 (some 1) v
        × (g'.contexts
            ≡ context_with whole (some "w") none (content_of job) stamp (gateway 8).contexts))
    × (eligible (gateway 8).balancer 5 (some 1) ≡ []
        → (r ≡ ok none) × (g'.contexts ≡ (gateway 8).contexts))
dispatch_lem_example = dispatch_lem whole (gateway 8) job 5 stamp (serving 8)

-- Two requests arrive, one is answered and one raises.
abbrev get_health : HttpRequest
get_health = record { method = "GET"; path = "/api/v1/health" }

abbrev measured : Metrics ℕ
measured =
    middleware_after get_health 9 (raised runtime_error)
      (middleware_after get_health 7 (ok 200) (middleware_before (middleware_before new_metrics)))

Served-gauge_example :
    (measured.active_requests ≡ 0 + 1)
    × (length measured.request_count ≡ 1)
    × (length measured.request_latency ≡ 1)
Served-gauge_example = Served-gauge {waiting = 0} (
    raises {waiting = 0} get_health 9 runtime_error
      (answers {waiting = 1} get_health 7 200 (arrives (arrives idle))))
