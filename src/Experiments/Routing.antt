-- ===== src/Experiments/Routing.antt =====
-- benchmarks/experiments/context_aware_routing.py, which runs the load balancer on three workers.
use fleet_llm_inference.Common.{
  ℕ, String, Bool, true, false, Option, none, some, List, [], ◌∷◌, map, ◌==◌, if◌then◌else◌,
}
use fleet_llm_inference.Common.Floats.{Floats}
use fleet_llm_inference.Common.Raises.{Result, ok, raised, no_capacity, map_raising, ◌>>=◌}
use fleet_llm_inference.Workers.Client.{OllamaClient}
use fleet_llm_inference.Router.Balancer.{
  LoadBalancer, Settings, new_balancer, available_workers, pick_worker,
}

pub record Scenario : Type 0 where
  pub name : String
  pub context_tokens : ℕ
  pub expected_eligible : List String

pub record Outcome : Type 0 where
  pub scenario : String
  pub context_tokens : ℕ
  pub eligible : List String
  pub expected_eligible : List String
  pub matches_expectation : Bool
  pub picked : Option String
  pub rejected : Bool

abbrev pub scenarios : List Scenario
scenarios =
    record {
      name = "small request (100 tokens)";
      context_tokens = 100;
      expected_eligible = "http://worker-a" ∷ "http://worker-b" ∷ "http://worker-c" ∷ [];
    }
    ∷ record {
      name = "medium request (16000 tokens)";
      context_tokens = 16000;
      expected_eligible = "http://worker-a" ∷ "http://worker-c" ∷ [];
    }
    ∷ record {
      name = "oversized request (100000 tokens)";
      context_tokens = 100000;
      expected_eligible = [];
    }
    ∷ []

abbrev pub same_urls : List String → List String → Bool
same_urls [] [] = true
same_urls [] (v ∷ vs) = false
same_urls (u ∷ us) [] = false
same_urls (u ∷ us) (v ∷ vs) = if u == v then same_urls us vs else false

abbrev pub url_of : {F : Type 0} → OllamaClient F → String
url_of w = w.stats.url

-- `except NoCapacityError`
abbrev pub picked_of : {F : Type 0} → Result (OllamaClient F) → Result (Option String)
picked_of (ok w) = ok (some (url_of w))
picked_of (raised no_capacity) = ok none
picked_of (raised e) = raised e

abbrev pub is_none : Option String → Bool
is_none none = true
is_none (some url) = false

module _ {F : Type 0} (ops : Floats F) (settings : Settings) where
  -- Capacities of 32768, 8192 and 32768, and 50 active requests at the third worker.
  abbrev pub adjusted : List (OllamaClient F) → List (OllamaClient F)
  adjusted (a ∷ b ∷ c ∷ others) =
      record a { max_context_tokens = 32768 }
      ∷ record b { max_context_tokens = 8192 }
      ∷ record c { max_context_tokens = 32768; stats = record c.stats { active_requests = 50 } }
      ∷ others
  adjusted workers = workers

  unfoldable pub build_heterogeneous_fleet : LoadBalancer F
  unfolding new_balancer
  build_heterogeneous_fleet =
      let lb =
        new_balancer ops settings
          ("http://worker-a" ∷ "http://worker-b" ∷ "http://worker-c" ∷ []) in
      record lb { workers = adjusted lb.workers }

  unfoldable pub run_scenario : ℕ → Scenario → Result Outcome
  unfolding build_heterogeneous_fleet available_workers pick_worker
  run_scenario now scenario =
      let (lb, found) =
        available_workers (some scenario.context_tokens) now build_heterogeneous_fleet in
      (do
        workers ← found
        picked ← picked_of (pick_worker ops (some scenario.context_tokens) now lb).1
        ok (record {
          scenario = scenario.name;
          context_tokens = scenario.context_tokens;
          eligible = map url_of workers;
          expected_eligible = scenario.expected_eligible;
          matches_expectation = same_urls (map url_of workers) scenario.expected_eligible;
          picked = picked;
          rejected = is_none picked;
        }))

  unfoldable pub run : ℕ → Result (List Outcome)
  unfolding run_scenario map_raising
  run now = map_raising (run_scenario now) scenarios
