-- ===== src/Router/Tests.antt =====
-- Concrete runs of the modules of router/.
use mathlib.Core.List.Perm
use fleet_llm_inference.Common.{
  ◌<◌, Perm, ℕ, String, ◌≡◌, ◌≢◌, ◌≤◌, ◌+◌, ◌%◌, refl, true, false, not, Option, none, some, List,
  [], ◌∷◌, map, arith, eq_iff, eqb, All, if◌then◌else◌, ◌==◌, leb, ltb, length,
}
use fleet_llm_inference.Common.Raises.{ok, raised, runtime_error, no_capacity, key_error}
use fleet_llm_inference.Dict
use fleet_llm_inference.Dict.{Dict, lookup, write, without}
use fleet_llm_inference.Samples.{whole, whole-IsOrder}
use fleet_llm_inference.Workers.Client.{OllamaClient, new_client}
use fleet_llm_inference.Router.Breaker.{CircuitBreaker, new_breaker, is_open, half_open}
use fleet_llm_inference.Router.Breaker.Trace.{
  Event, queries, succeeds, fails, streak, last_failure, latest, is_open-run, half_open_unlimited,
}
use fleet_llm_inference.Router.Breaker.Trace
use fleet_llm_inference.Router.Balancer.{
  Settings, LoadBalancer, new_balancer, pick_worker, add_worker, remove_worker, record_success,
  record_failure, has_worker, idler, faster, nth_or, add_all, add_client,
}
use fleet_llm_inference.Router.Balancer.Eligible.{IsServing, eligible}
use fleet_llm_inference.Router.Balancer.Pick.{Among, IsFit, pick_worker-IsFit, pick_worker-refuses}
use fleet_llm_inference.Router.Balancer.Strategy.{
  pick_worker-least, pick_worker-round_robin, after_picks,
}
use fleet_llm_inference.Router.Balancer.Registry.{
  IsPool, new_balancer-IsPool, add_worker-IsPool, remove_worker-IsPool, record-removed,
}
use fleet_llm_inference.Router.HealthChecker.{handles, verdict, run_once, run_once-reports}
use fleet_llm_inference.Router.HealthChecker.Joins.{add_worker-IsOthers, remove_worker-IsOthers}
use fleet_llm_inference.Router.Balancer.Health.{Awaited, WorkerReport}
use fleet_llm_inference.Router.Autoscaler.{Autoscaler, round, running_worker_count}
use fleet_llm_inference.Router.Autoscaler.Scaling.{Quiet, IsScaled, Kept, round-IsScaled}
use fleet_llm_inference.Router.Autoscaler.Bounds.{round-bounds}

abbrev events : List Event
events = fails 1 ∷ queries 2 ∷ fails 3 ∷ []

is_open-run_example :
    (is_open (Trace.run (new_breaker "a" 2 10) events) 5).1
    ≡ (if leb 2 (streak 0 events) then ltb 5 (last_failure 0 events + 10) else false)
unfolding latest
is_open-run_example =
    is_open-run "a" 2 10 5 events (ground arith) (ground arith, (ground arith, (ground arith, tt)))
      (ground arith)

abbrev tested : CircuitBreaker
tested = record (new_breaker "a" 2 10) { state = half_open }

abbrev settings : String → Settings
settings strategy = record {
  request_timeout = 120;
  worker_max_context_tokens = 8;
  circuit_breaker_threshold = 3;
  circuit_breaker_timeout = 30;
  routing_strategy = strategy;
}

abbrev two : String → LoadBalancer ℕ
two strategy = new_balancer whole (settings strategy) ("a" ∷ "b" ∷ [])

pool : (strategy : String) → IsPool (two strategy)
pool strategy =
    (new_balancer-IsPool whole (settings strategy) ("a" ∷ "b" ∷ []) (refl, (refl, tt))).0

add_worker-IsPool_example :
    IsPool (add_worker whole (two "first") "c").0
    × ((add_worker whole (two "first") "c").1 ≡ not (has_worker (two "first") "c"))
    × ((k : String)
        → has_worker (add_worker whole (two "first") "c").0 k
          ≡ (if "c" == k then true else has_worker (two "first") k))
    × (has_worker (two "first") "c" ≡ true → (add_worker whole (two "first") "c").0 ≡ two "first")
add_worker-IsPool_example = add_worker-IsPool whole (two "first") "c" (pool "first")

remove_worker-IsPool_example :
    IsPool (remove_worker (two "first") "a").0
    × ((remove_worker (two "first") "a").1 ≡ has_worker (two "first") "a")
    × ((k : String)
        → has_worker (remove_worker (two "first") "a").0 k
          ≡ (if "a" == k then false else has_worker (two "first") k))
remove_worker-IsPool_example = remove_worker-IsPool (two "first") "a" (pool "first")

record-removed_example :
    ((record_success "a" (remove_worker (two "first") "a").0).1 ≡ raised key_error)
    × ((record_failure "a" 4 (remove_worker (two "first") "a").0).1 ≡ raised key_error)
record-removed_example = record-removed (two "first") "a" 4

abbrev client : ℕ → String → OllamaClient ℕ
client handle url = new_client whole handle url 120 none 8

both : (strategy : String) → eligible (two strategy) 5 (some 7) ≡ client 0 "a" ∷ client 1 "b" ∷ []
unfolding eligible new_balancer add_all add_client new_client is_open new_breaker Dict.get Dict.put
    lookup write Dict.empty
both strategy = refl

nobody : eligible (two "first") 5 (some 9) ≡ []
unfolding eligible new_balancer add_all add_client new_client is_open new_breaker Dict.get Dict.put
    lookup write Dict.empty
nobody = refl

pick_worker-IsFit_example :
    (w : OllamaClient ℕ) × ((pick_worker whole (some 7) 5 (two "first")).1 ≡ ok w)
    × IsFit (two "first") 5 (some 7) w
pick_worker-IsFit_example =
    pick_worker-IsFit whole (two "first") 5 (some 7) (pool "first").serving
      (λ e. ground (arith, e, both "first"))

pick_worker-refuses_example :
    (eligible (two "first") 5 none ≡ []
      → ((pick_worker whole (some 9) 5 (two "first")).1 ≡ raised runtime_error)
        × ((pick_worker whole (some 9) 5 (two "first")).0.rejections ≡ (two "first").rejections))
    × (eligible (two "first") 5 none ≢ []
        → ((pick_worker whole (some 9) 5 (two "first")).1 ≡ raised no_capacity)
          × ((pick_worker whole (some 9) 5 (two "first")).0.rejections
              ≡ (two "first").rejections + 1))
pick_worker-refuses_example =
    pick_worker-refuses whole (two "first") 5 (some 9) (pool "first").serving nobody

abbrev Ranked : String → Type 0
Ranked strategy =
    (strategy ≡ "queue_depth"
      → (v : OllamaClient ℕ) × ((pick_worker whole (some 7) 5 (two strategy)).1 ≡ ok v)
        × Among v (client 0 "a" ∷ client 1 "b" ∷ [])
        × All (λ u. idler u v ≡ false) (client 0 "a" ∷ client 1 "b" ∷ []))
    × (strategy ≡ "least_latency"
        → (v : OllamaClient ℕ) × ((pick_worker whole (some 7) 5 (two strategy)).1 ≡ ok v)
          × Among v (client 0 "a" ∷ client 1 "b" ∷ [])
          × All (λ u. faster whole u v ≡ false) (client 0 "a" ∷ client 1 "b" ∷ []))

pick_worker-least_example : Ranked "queue_depth"
unfolding new_balancer add_all add_client
pick_worker-least_example =
    pick_worker-least whole (two "queue_depth") 5 (some 7) (client 0 "a") (client 1 "b" ∷ [])
      whole-IsOrder (pool "queue_depth").serving (both "queue_depth")

pick_worker-round_robin_example :
    (pick_worker whole (some 7) 5 (after_picks whole 3 (some 7) 5 (two "round_robin"))).1
    ≡ ok (
        nth_or
          (client 0 "a")
          (client 1 "b" ∷ [])
          (((two "round_robin").rr_index + 3) % length (client 0 "a" ∷ client 1 "b" ∷ [])))
unfolding new_balancer add_all add_client
pick_worker-round_robin_example =
    pick_worker-round_robin whole 3 (two "round_robin") 5 (some 7) (client 0 "a")
      (client 1 "b" ∷ []) (pool "round_robin").serving refl (both "round_robin")

abbrev unchanged : LoadBalancer ℕ → LoadBalancer ℕ
unchanged lb = lb

abbrev scaler : Autoscaler ℕ
scaler = record {
  min_workers = 1;
  max_workers = 4;
  scale_up_threshold = 3;
  scale_down_threshold = 0;
  cooldown = 30;
  last_scale_time = 0;
  standby = "c" ∷ [];
  active_dynamic = "b" ∷ [];
  balancer = two "first";
}

quiet : Quiet unchanged
unfolding Quiet
quiet lb h = (h, λ k. refl)

scaler-IsScaled : IsScaled scaler
unfolding has_worker
scaler-IsScaled =
    let there =
      (new_balancer-IsPool whole (settings "first") ("a" ∷ "b" ∷ []) (refl, (refl, tt))).1 in
    record {
      pool = pool "first";
      running = λ k e. ground (arith, there k, eq_iff k "b", eq_iff k "a");
      waiting = λ k e. ground (
        arith,
        there k,
        eq_iff k "c",
        eq_iff k "b",
        eq_iff k "a",
        eq_iff "c" "a",
        eq_iff "c" "b",
      );
      active = (refl, tt);
      standby = (refl, tt);
    }

round-IsScaled_example : Kept scaler (round whole scaler 5 unchanged (some 200) 40)
round-IsScaled_example = round-IsScaled whole unchanged quiet scaler 5 (some 200) 40 scaler-IsScaled

round-bounds_example :
    (running_worker_count scaler ≤ 4
      → running_worker_count (round whole scaler 5 unchanged (some 200) 40) ≤ 4)
    × (1 ≤ running_worker_count scaler
        → 1 ≤ running_worker_count (round whole scaler 5 unchanged (some 200) 40))
    × (running_worker_count (round whole scaler 5 unchanged (some 200) 40)
        ≤ running_worker_count scaler + 1)
    × (running_worker_count scaler
        ≤ running_worker_count (round whole scaler 5 unchanged (some 200) 40) + 1)
round-bounds_example =
    round-bounds whole unchanged scaler 5 (some 200) 40 (λ lb. refl) (pool "first")

abbrev second_down : ℕ → Option ℕ
second_down handle = if eqb handle 0 then some 200 else none

abbrev swapped : List ℕ → List ℕ
swapped (first ∷ second ∷ rest) = second ∷ first ∷ rest
swapped few = few

two-created : All (λ h. h < (two "first").next_handle) (handles (two "first"))
unfolding new_balancer add_all add_client new_client
two-created = (omega arith, (omega arith, tt))

two-swapped : Perm (swapped (handles (two "first"))) (handles (two "first"))
unfolding new_balancer add_all add_client new_client
two-swapped = Perm.swap 0 1 []

-- The second worker answers first, a third one joins before, and the first leaves after its answer.
abbrev one_joins : Awaited ℕ
one_joins = record {
  order = swapped;
  before = λ handle lb. (add_worker whole lb "third").0;
  after = λ lb. (remove_worker lb "a").0;
}

run_once-reports_example :
    let (lb', r) = run_once whole second_down one_joins (two "first") in
    IsServing lb'
    × ((l : List (WorkerReport ℕ)) × (r ≡ ok l)
        × (map (λ (v : WorkerReport ℕ). v.url) l
            ≡ map (λ (w : OllamaClient ℕ). w.stats.url) lb'.workers)
        × (map (λ (v : WorkerReport ℕ). v.healthy) l
            ≡ map (verdict whole second_down (handles (two "first"))) lb'.workers))
run_once-reports_example =
    run_once-reports whole second_down (two "first") one_joins (pool "first").serving two-created
      two-swapped (λ handle. add_worker-IsOthers whole (handles (two "first")) "third")
      (remove_worker-IsOthers (handles (two "first")) "a")
