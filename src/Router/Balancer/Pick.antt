-- ===== src/Router/Balancer/Pick.antt =====
-- `pick_worker` of router/load_balancer.py: whom it picks, and when it refuses.
use fleet_llm_inference.Common.{
  ℕ, zero, suc, ◌+◌, ◌%◌, ◌≤◌, ◌≡◌, ◌≢◌, refl, ◌⊎◌, inl, inr, subst, Bool, true, false, Option,
  none, some, List, [], ◌∷◌, arith, ◌==◌, leb, keep, length, get_elem?, Bool-cases, Option-cases,
  List-cases,
}
use fleet_llm_inference.Common.Floats.{Floats}
use fleet_llm_inference.Common.Raises.{ok, raised, no_capacity, runtime_error}
use fleet_llm_inference.Workers.Client.{OllamaClient}
use fleet_llm_inference.Router.Balancer.{
  LoadBalancer, available_workers, pick_worker, choose, refuse, min_by, nth_or, faster, idler,
}
use fleet_llm_inference.Router.Balancer.Eligible.{
  gate, passes, IsServing, eligible, available_workers_lem, eligible-Asked, IsServing-Asked,
}

module _ {F : Type 0} where
  -- `w` is one of `ws`.
  abbrev pub Among : OllamaClient F → List (OllamaClient F) → Type 0
  Among w [] = ⊥
  Among w (v ∷ ws) = (v ≡ w) ⊎ Among w ws

  Among-get_elem? :
      (w : OllamaClient F) (ws : List (OllamaClient F)) (i : ℕ)
      → get_elem? ws i ≡ some w
      → Among w ws
  Among-get_elem? w [] i h = cc
  Among-get_elem? w (v ∷ ws) zero h = inl (ground arith)
  Among-get_elem? w (v ∷ ws) (suc i) h = inr (Among-get_elem? w ws i h)

  Among-skip :
      (u w v : OllamaClient F) (ws : List (OllamaClient F))
      → Among u (w ∷ ws)
      → Among u (w ∷ v ∷ ws)
  Among-skip u w v ws (inl h) = inl h
  Among-skip u w v ws (inr h) = inr (inr h)

  pub Among-min_by :
      (less : OllamaClient F → OllamaClient F → Bool) (w : OllamaClient F)
      (ws : List (OllamaClient F))
      → Among (min_by less w ws) (w ∷ ws)
  unfolding min_by
  Among-min_by less w [] = inl refl
  Among-min_by less w (v ∷ ws) = elim (Bool-cases (less v w)) [
    | inl e ↦
        subst (λ u. Among (min_by less u ws) (w ∷ v ∷ ws)) {x = v} (rw e refl)
          (inr (Among-min_by less v ws))
    | inr e ↦
        subst (λ u. Among (min_by less u ws) (w ∷ v ∷ ws)) {x = w} (rw e refl)
          (Among-skip _ w v ws (Among-min_by less w ws))
  ]

  pub Among-nth_or :
      (w : OllamaClient F) (ws : List (OllamaClient F)) (i : ℕ) → Among (nth_or w ws i) (w ∷ ws)
  Among-nth_or w ws i = elim (Option-cases (get_elem? (w ∷ ws) i)) [
    | inl e ↦ subst (λ u. Among u (w ∷ ws)) {x = w} (rw (e, nth_or) refl) (inl refl)
    | inr (v, e) ↦
        subst (λ u. Among u (w ∷ ws)) {x = v} (rw (e, nth_or) refl) (Among-get_elem? v (w ∷ ws) i e)
  ]

  Among-keep :
      (p : OllamaClient F → Bool) (w : OllamaClient F) (ws : List (OllamaClient F))
      → Among w (keep p ws)
      → Among w ws × (p w ≡ true)
  Among-keep p w [] h = absurd h
  Among-keep p w (v ∷ ws) h = elim (Bool-cases (p v)) [
    | inl e ↦ Among-kept e (Among-keep p w ws) (rw e at h)
    | inr e ↦ let (m, t) = Among-keep p w ws (rw e at h) in (inr m, t)
  ]
    where
      Among-kept :
          p v ≡ true
          → (Among w (keep p ws) → Among w ws × (p w ≡ true))
          → Among w (v ∷ keep p ws)
          → Among w (v ∷ ws) × (p w ≡ true)
      Among-kept e rest (inl q) = (inl q, subst (λ u. p u ≡ true) q e)
      Among-kept e rest (inr m) = let (k, t) = rest m in (inr k, t)

  -- What is asked of the worker that a request goes to.
  pub record IsFit (lb : LoadBalancer F) (now : ℕ) (context_tokens : Option ℕ) (w : OllamaClient F)
      : Type 0 where
    pub registered : Among w lb.workers
    pub healthy : w.stats.is_healthy ≡ true
    pub unblocked : gate lb.breakers now w.stats.url ≡ some false
    pub capable : (n : ℕ) → context_tokens ≡ some n → n ≤ w.max_context_tokens

  eligible-IsFit :
      (lb : LoadBalancer F) (now : ℕ) (context_tokens : Option ℕ) (w : OllamaClient F)
      → Among w (eligible lb now context_tokens)
      → IsFit lb now context_tokens w
  unfolding eligible
  eligible-IsFit lb now none w h =
      let (m, p) = Among-keep (passes lb.breakers now) w lb.workers h in
      record {
        registered = m;
        healthy = ground arith;
        unblocked = ground arith;
        capable = λ n e. cc;
      }
  eligible-IsFit lb now (some c) w h =
      let (k, q) = Among-keep (λ v. leb c v.max_context_tokens) w _ h in
      let (m, p) = Among-keep (passes lb.breakers now) w lb.workers k in
      record {
        registered = m;
        healthy = ground arith;
        unblocked = ground arith;
        capable = λ n e. ground arith;
      }

module _ {F : Type 0} (ops : Floats F) where
  -- Every strategy chooses one of the available workers.
  pub choose-Among :
      (w : OllamaClient F) (ws : List (OllamaClient F)) (lb : LoadBalancer F)
      → (v : OllamaClient F) × ((choose ops w ws lb).1 ≡ ok v) × Among v (w ∷ ws)
  unfolding choose
  choose-Among w ws lb = elim (Bool-cases (lb.settings.routing_strategy == "round_robin")) [
    | inl e ↦ (nth_or w ws (lb.rr_index % length (w ∷ ws)), rw e refl, Among-nth_or w ws _)
    | inr e ↦ elim (Bool-cases (lb.settings.routing_strategy == "least_latency")) [
      | inl l ↦ (min_by (faster ops) w ws, rw (e, l) refl, Among-min_by (faster ops) w ws)
      | inr l ↦ elim (Bool-cases (lb.settings.routing_strategy == "queue_depth")) [
        | inl q ↦ (min_by idler w ws, rw (e, l, q) refl, Among-min_by idler w ws)
        | inr q ↦ (w, rw (e, l, q) refl, inl refl)
      ]
    ]
  ]

  -- Where all workers have breakers and some worker is eligible, a fit worker is picked, whatever
  -- the strategy.
  pub pick_worker-IsFit :
      (lb : LoadBalancer F) (now : ℕ) (context_tokens : Option ℕ)
      → IsServing lb
      → eligible lb now context_tokens ≢ []
      → (w : OllamaClient F) × ((pick_worker ops context_tokens now lb).1 ≡ ok w)
        × IsFit lb now context_tokens w
  unfolding pick_worker
  pick_worker-IsFit lb now context_tokens h some_worker =
      elim (List-cases (eligible lb now context_tokens)) [
        | inl e ↦ absurd (some_worker e)
        | inr (w, ws, e) ↦
            let (p, a) = available_workers_lem lb context_tokens now h in
            let (v, q, m) = choose-Among w ws (available_workers context_tokens now lb).0 in
            (v, ground (arith, p, e, q), eligible-IsFit lb now context_tokens v (rw e m))
      ]

  -- Where all workers have breakers and none is eligible, the request is refused: by
  -- NoCapacityError, counted once, if some worker would be eligible without the capacity, and else
  -- by RuntimeError, not counted.
  pub pick_worker-refuses :
      (lb : LoadBalancer F) (now : ℕ) (context_tokens : Option ℕ)
      → IsServing lb
      → eligible lb now context_tokens ≡ []
      → let (lb', r) = pick_worker ops context_tokens now lb in
        (eligible lb now none ≡ [] → (r ≡ raised runtime_error) × (lb'.rejections ≡ lb.rejections))
        × (eligible lb now none ≢ []
            → (r ≡ raised no_capacity) × (lb'.rejections ≡ lb.rejections + 1))
  unfolding pick_worker refuse
  pick_worker-refuses lb now none h nobody =
      let (p, a) = available_workers_lem lb none now h in
      (
        λ e. (ground (arith, p, nobody), ground (arith, p, nobody, a.rejections)),
        λ e. absurd (e nobody),
      )
  pick_worker-refuses lb now (some c) h nobody =
      let (p, a) = available_workers_lem lb (some c) now h in
      let lb' = (available_workers (some c) now lb).0 in
      let (p', a') = available_workers_lem lb' none now (IsServing-Asked lb lb' now a h) in
      let same = eligible-Asked lb lb' now none a in
      (
        λ e. (
          ground (arith, p, nobody, p', same, e),
          ground (arith, p, nobody, p', same, e, a.rejections, a'.rejections),
        ),
        λ some_worker. elim (List-cases (eligible lb now none)) [
          | inl e ↦ absurd (some_worker e)
          | inr (w, ws, e) ↦ (
            ground (arith, p, nobody, p', same, e),
            ground (arith, p, nobody, p', same, e, a.rejections, a'.rejections),
          )
        ],
      )
