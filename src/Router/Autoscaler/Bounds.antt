-- ===== src/Router/Autoscaler/Bounds.antt =====
-- How many workers router/autoscaler.py keeps.
use fleet_llm_inference.Common.{
  ℕ, ◌+◌, ◌≤◌, String, ◌≡◌, refl, inl, inr, false, Option, none, some, List, [], ◌∷◌, map, eqb,
  if◌then◌else◌, length, length-append, arith, eq_iff, elem, Distinct, Bool-cases, List-cases,
}
use fleet_llm_inference.Common.Floats.{Floats}
use fleet_llm_inference.Workers.Client.{OllamaClient}
use fleet_llm_inference.Router.Balancer.{
  LoadBalancer, add_worker, add_client, has_worker, remove_worker,
}
use fleet_llm_inference.Router.Balancer.Registry.{IsPool, urls, others}
use fleet_llm_inference.Router.Autoscaler.{
  Autoscaler, running_worker_count, pop_last, check_client, client_at, checked, scale_up,
  scale_up_static, scale_down, scale_down_static, round,
}

module _ {F : Type 0} where
  others-absent :
      (url : String) (ws : List (OllamaClient F))
      → elem url (urls ws) ≡ false
      → length (others url ws) ≡ length ws
  others-absent url [] h = refl
  others-absent url (w ∷ ws) h =
      ground (arith, others-absent url ws, eq_iff w.stats.url url, eq_iff url w.stats.url)

  others-one :
      (url : String) (ws : List (OllamaClient F))
      → Distinct (urls ws)
      → length ws ≤ length (others url ws) + 1
  others-one url [] h = omega arith
  others-one url (w ∷ ws) h =
      ground (arith, others-one url ws h.1, others-absent url ws, h.0, eq_iff w.stats.url url)

  others-le : (url : String) (ws : List (OllamaClient F)) → length (others url ws) ≤ length ws
  others-le url [] = omega arith
  others-le url (w ∷ ws) = ground (arith, others-le url ws)

  length-checked :
      (handle : ℕ) (status : Option ℕ) (ws : List (OllamaClient F))
      → length
          (map (λ (w : OllamaClient F). if eqb w.handle handle then checked status w else w) ws)
        ≡ length ws
  length-checked handle status [] = refl
  length-checked handle status (w ∷ ws) = omega (arith, length-checked handle status ws)

  length-check_client :
      (handle status : Option ℕ) (lb : LoadBalancer F)
      → length (check_client handle status lb).workers ≡ length lb.workers
  unfolding check_client
  length-check_client none status lb = refl
  length-check_client (some handle) status lb = length-checked handle status lb.workers

  -- A removal takes one worker at most.
  scale_down_static-count :
      (a : Autoscaler F) (now : ℕ)
      → IsPool a.balancer
      → let b = scale_down_static a now in
        (running_worker_count b ≤ running_worker_count a)
        × (running_worker_count a ≤ running_worker_count b + 1)
  unfolding scale_down_static remove_worker
  scale_down_static-count a now h = elim (List-cases a.active_dynamic) [
    | inl e ↦ (ground (arith, e), ground (arith, e))
    | inr (u, us, e) ↦
        let url = (pop_last u us).1 in
        (
          ground (arith, e, others-le url a.balancer.workers),
          ground (arith, e, others-one url a.balancer.workers h.distinct),
        )
  ]

module _ {F : Type 0} (ops : Floats F) (during : LoadBalancer F → LoadBalancer F) where
  length-add_client :
      (lb : LoadBalancer F) (url : String)
      → length (add_client ops lb url).workers ≡ length lb.workers + 1
  unfolding add_client
  length-add_client lb url = length-append lb.workers _

  length-add_worker :
      (lb : LoadBalancer F) (url : String)
      → (length lb.workers ≤ length (add_worker ops lb url).0.workers)
        × (length (add_worker ops lb url).0.workers ≤ length lb.workers + 1)
  unfolding add_worker
  length-add_worker lb url =
      let e = length-add_client lb url in
      elim (Bool-cases (has_worker lb url)) [
        | inl h ↦ (rw (h, add_worker) omega arith, rw (h, add_worker) omega arith)
        | inr h ↦ (rw (h, add_worker) omega (arith, e), rw (h, add_worker) omega (arith, e))
      ]

  scale_up_static-count :
      (a : Autoscaler F) (status : Option ℕ) (now : ℕ)
      → ((lb : LoadBalancer F) → length (during lb).workers ≡ length lb.workers)
      → let b = scale_up_static ops a during status now in
        (running_worker_count a ≤ running_worker_count b)
        × (running_worker_count b ≤ running_worker_count a + 1)
  unfolding scale_up_static
  scale_up_static-count a status now d = elim (List-cases a.standby) [
    | inl e ↦ (ground (arith, e), ground (arith, e))
    | inr (u, us, e) ↦
        let lb = (add_worker ops a.balancer u).0 in
        let l = length-add_worker a.balancer u in
        let c = length-check_client (client_at lb.workers u) status (during lb) in
        (ground (arith, e, l.0, c, d lb), ground (arith, e, l.1, c, d lb))
  ]

  -- For a well-formed pool, whose number of workers others leave alone during the await, a round
  -- keeps this number between the limits: it adds or removes one worker at most,
  -- none above `max_workers` and none below `min_workers`.
  pub round-bounds :
      (a : Autoscaler F) (depth : ℕ) (status : Option ℕ) (now : ℕ)
      → ((lb : LoadBalancer F) → length (during lb).workers ≡ length lb.workers)
      → IsPool a.balancer
      → let n = running_worker_count a in
        let m = running_worker_count (round ops a depth during status now) in
        (n ≤ a.max_workers → m ≤ a.max_workers)
        × (a.min_workers ≤ n → a.min_workers ≤ m)
        × (m ≤ n + 1)
        × (n ≤ m + 1)
  unfolding round scale_up scale_down
  round-bounds a depth status now d h =
      let (u, u') = scale_up_static-count a status now d in
      let (p, q) = scale_down_static-count a now h in
      (
        λ k. ground (arith, u, u', p, q),
        λ k. ground (arith, u, u', p, q),
        ground (arith, u, u', p, q),
        ground (arith, u, u', p, q),
      )
