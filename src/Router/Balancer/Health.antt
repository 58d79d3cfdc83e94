-- ===== src/Router/Balancer/Health.antt =====
-- Health checks and statistics of router/load_balancer.py. `status` gives what the worker of a handle
-- answers, `none` for an exception; a worker object is told by its handle.
use fleet_llm_inference.Common.{
  ℕ, String, ◌≡◌, refl, ap, inl, inr, Bool, Option, List, [], ◌∷◌, map, arith, eqb, if◌then◌else◌,
  All, Option-cases,
}
use fleet_llm_inference.Common.Floats.{Floats}
use fleet_llm_inference.Common.Raises.{Result, ok, or_key_error, map_raising, ◌>>=◌}
use fleet_llm_inference.Dict
use fleet_llm_inference.Dict.{Dict}
use fleet_llm_inference.Workers.Client.{OllamaClient, avg_latency}
use fleet_llm_inference.Workers.Client.Requests.{health_check}
use fleet_llm_inference.Router.Breaker.{CircuitBreaker, CircuitState}
use fleet_llm_inference.Router.Balancer.{LoadBalancer}
use fleet_llm_inference.Router.Balancer.Eligible.{HasBreaker, IsServing}

pub record WorkerReport (F : Type 0) : Type 0 where
  pub url : String
  pub healthy : Bool
  pub active_requests : ℕ
  pub total_requests : ℕ
  pub avg_latency_ms : F
  pub failures : ℕ
  pub circuit_state : CircuitState

-- What goes on while the checks are awaited: the order in which the workers answer, what other tasks do
-- to the balancer up to the answer of each worker, and what they do after the last one.
pub record Awaited (F : Type 0) : Type 0 where
  pub order : List ℕ → List ℕ
  pub before : ℕ → LoadBalancer F → LoadBalancer F
  pub after : LoadBalancer F → LoadBalancer F

module _ {F : Type 0} (status : ℕ → Option ℕ) where
  abbrev pub check : OllamaClient F → OllamaClient F
  check w = (health_check (status w.handle) w).0

  abbrev pub check_where : ℕ → OllamaClient F → OllamaClient F
  check_where handle w = if eqb w.handle handle then check w else w

  -- A worker answers, or fails to: the result is stored in its object, if that is in the pool.
  unfoldable pub check_client : ℕ → LoadBalancer F → LoadBalancer F
  check_client handle lb = record lb { workers = map (check_where handle) lb.workers }

  unfoldable pub check_clients :
      (ℕ → LoadBalancer F → LoadBalancer F) → List ℕ → LoadBalancer F → LoadBalancer F
  unfolding check_client
  check_clients before [] lb = lb
  check_clients before (handle ∷ handles) lb =
      check_clients before handles (check_client handle (before handle lb))

  -- The workers that are there at the start are asked, and answer in some order.
  unfoldable pub health_check_all : Awaited F → LoadBalancer F → LoadBalancer F
  unfolding check_clients
  health_check_all awaited lb = awaited.after (
      check_clients awaited.before
        (awaited.order (map (λ (w : OllamaClient F). w.handle) lb.workers)) lb)

module _ {F : Type 0} (ops : Floats F) where
  unfoldable pub report_of : OllamaClient F → CircuitBreaker → WorkerReport F
  report_of w b = record {
    url = w.stats.url;
    healthy = w.stats.is_healthy;
    active_requests = w.stats.active_requests;
    total_requests = w.stats.total_requests;
    avg_latency_ms = ops.round (ops.mul (avg_latency ops w.stats) (ops.of_int 1000)) 2;
    failures = w.stats.failures;
    circuit_state = b.state;
  }

  unfoldable pub report : Dict CircuitBreaker → OllamaClient F → Result (WorkerReport F)
  report breakers w = do b ← or_key_error (Dict.get breakers w.stats.url); ok (report_of w b)

  unfoldable pub get_worker_stats : LoadBalancer F → Result (List (WorkerReport F))
  unfolding report
  get_worker_stats lb = map_raising (report lb.breakers) lb.workers

  reports :
      (d : Dict CircuitBreaker) (ws : List (OllamaClient F))
      → All (HasBreaker d) ws
      → (l : List (WorkerReport F)) × (map_raising (report d) ws ≡ ok l)
        × (map (λ (r : WorkerReport F). r.url) l ≡ map (λ (w : OllamaClient F). w.stats.url) ws)
        × (map (λ (r : WorkerReport F). r.healthy) l
            ≡ map (λ (w : OllamaClient F). w.stats.is_healthy) ws)
  unfolding map_raising report report_of
  reports d [] h = ([], refl, refl, refl)
  reports d (w ∷ ws) h = elim (Option-cases (Dict.get d w.stats.url)) [
    | inl e ↦ absurd (ground (arith, h.0, e))
    | inr (b, e) ↦
        let (l, p, q, r) = reports d ws h.1 in
        (
          report_of w b ∷ l,
          ground (arith, e, p),
          ap (λ urls. w.stats.url ∷ urls) q,
          ap (λ healths. w.stats.is_healthy ∷ healths) r,
        )
  ]

  -- Where every worker has a breaker, the statistics name each worker once, in the order of the pool,
  -- with its health.
  pub get_worker_stats_lem :
      (lb : LoadBalancer F)
      → IsServing lb
      → (l : List (WorkerReport F)) × (get_worker_stats lb ≡ ok l)
        × (map (λ (r : WorkerReport F). r.url) l
            ≡ map (λ (w : OllamaClient F). w.stats.url) lb.workers)
        × (map (λ (r : WorkerReport F). r.healthy) l
            ≡ map (λ (w : OllamaClient F). w.stats.is_healthy) lb.workers)
  unfolding get_worker_stats
  get_worker_stats_lem lb h = reports lb.breakers lb.workers h
