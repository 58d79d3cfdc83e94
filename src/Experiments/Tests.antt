-- ===== src/Experiments/Tests.antt =====
-- The experiments with whole numbers in the place of floats.
use fleet_llm_inference.Common.{
  ℕ, ◌≤◌, String, true, false, none, some, List, [], ◌∷◌, ◌≡◌, refl, arith, length, sum_by, Perm,
}
use fleet_llm_inference.Common.Raises.{Result, ok, map_raising}
use fleet_llm_inference.Context.Models.{ContextItem, post_init, estimate_tokens}
use fleet_llm_inference.Context.Selection.{tokens_of}
use fleet_llm_inference.Workers.Client.Requests.{Completion}
use fleet_llm_inference.Experiments.Budgeting
use fleet_llm_inference.Experiments.Budgeting.{
  StrategyOutcome, build_context_pool, fillers, file_item, pool_item,
}
use fleet_llm_inference.Experiments.Comparison.{Sends, run-compares}
use fleet_llm_inference.Dict
use fleet_llm_inference.Dict.{lookup, write}
use fleet_llm_inference.Samples.{whole}
use fleet_llm_inference.Workers.Client.{new_client, rstrip_slash, avg_latency}
use fleet_llm_inference.Router.Breaker.{new_breaker, is_open}
use fleet_llm_inference.Router.Balancer.{
  new_balancer, add_all, add_client, available_workers, passing_workers, is_passing, pick_worker,
  choose, refuse, min_by,
}
use fleet_llm_inference.Gateway.Tests.{settings}
use fleet_llm_inference.Experiments.Routing.{run, run_scenario, build_heterogeneous_fleet}

-- With least latency, the first eligible worker is picked in the first two scenarios, and the third
-- is refused; all eligible workers are as expected.
run_example :
    run whole (settings 8) 5
    ≡ ok (
        record {
          scenario = "small request (100 tokens)";
          context_tokens = 100;
          eligible = "http://worker-a" ∷ "http://worker-b" ∷ "http://worker-c" ∷ [];
          expected_eligible = "http://worker-a" ∷ "http://worker-b" ∷ "http://worker-c" ∷ [];
          matches_expectation = true;
          picked = some "http://worker-a";
          rejected = false;
        }
        ∷ record {
          scenario = "medium request (16000 tokens)";
          context_tokens = 16000;
          eligible = "http://worker-a" ∷ "http://worker-c" ∷ [];
          expected_eligible = "http://worker-a" ∷ "http://worker-c" ∷ [];
          matches_expectation = true;
          picked = some "http://worker-a";
          rejected = false;
        }
        ∷ record {
          scenario = "oversized request (100000 tokens)";
          context_tokens = 100000;
          eligible = [];
          expected_eligible = [];
          matches_expectation = true;
          picked = none;
          rejected = true;
        }
        ∷ [])
unfolding run run_scenario build_heterogeneous_fleet map_raising new_balancer add_all add_client
    new_client rstrip_slash avg_latency available_workers passing_workers is_passing pick_worker
    choose refuse min_by is_open new_breaker Dict.get Dict.put Dict.empty lookup write
run_example = refl

abbrev answer : String → Result (Completion ℕ String) × ℕ
answer prompt = (
  ok (record {
    answer = "it should add";
    model = none;
    worker_url = "u";
    latency_ms = 1;
    prompt_tokens = 7;
    completion_tokens = 3;
  }),
  2,
)

abbrev pool : List (ContextItem ℕ)
pool = build_context_pool whole (λ i. "id") (λ i. i) "def add(a, b): ..." "experiment-1"

small_pool : sum_by tokens_of pool ≤ 1000000
unfolding build_context_pool fillers file_item pool_item post_init estimate_tokens
small_pool = omega arith

run-compares_example :
    (full : StrategyOutcome ℕ) × (hybrid : StrategyOutcome ℕ) × (Budgeting.run whole
        (λ s. s)
        answer
        pool
        400
      ≡ ok (full, hybrid))
    × ((f : Sends whole (λ s. s) answer "full" 1000000 pool full) × Perm f.selection.selected pool)
    × Sends whole (λ s. s) answer "hybrid" 400 pool hybrid
    × (full.items_selected ≡ length pool)
    × (hybrid.tokens_estimated ≤ full.tokens_estimated)
run-compares_example =
    run-compares whole (λ s. s) answer (λ prompt. (_, refl)) (λ i. "id") (λ i. i)
      "def add(a, b): ..." "experiment-1" 400 small_pool
