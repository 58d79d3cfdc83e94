-- ===== src/Router/Autoscaler/Scaling.antt =====
-- What a round of router/autoscaler.py keeps.
use fleet_llm_inference.Common.{
  ℕ, String, ◌≡◌, refl, sym, ap, ◌∙◌, subst, inl, inr, Bool, true, false, Option, none, some, List,
  [], ◌∷◌, ◌++◌, map, ◌==◌, eqb, leb, ltb, if◌then◌else◌, arith, eq_iff, eq_refl, elem, elem-append,
  Distinct, Distinct-append_one, Bool-cases, List-cases, All,
}
use fleet_llm_inference.Common.Floats.{Floats}
use fleet_llm_inference.Dict.{Dict}
use fleet_llm_inference.Workers.Client.{OllamaClient}
use fleet_llm_inference.Workers.Client.Requests.{health_check}
use fleet_llm_inference.Router.Breaker.{CircuitBreaker}
use fleet_llm_inference.Router.Balancer.{LoadBalancer, add_worker, remove_worker, has_worker}
use fleet_llm_inference.Router.Balancer.Eligible.{HasBreaker}
use fleet_llm_inference.Router.Balancer.Registry.{
  IsPool, urls, any-urls, remove_worker-IsPool, add_worker-IsPool,
}
use fleet_llm_inference.Router.Autoscaler.{
  Autoscaler, running_worker_count, pop_last, check_client, client_at, checked, scale_up,
  scale_up_static, scale_down, scale_down_static, round, in_cooldown,
}

elem-pop_last :
    (k u : String) (us : List String)
    → elem k (u ∷ us) ≡ (if k == (pop_last u us).1 then true else elem k (pop_last u us).0)
unfolding pop_last
elem-pop_last k u [] = refl
elem-pop_last k u (v ∷ us) = ground (arith, elem-pop_last k v us)

pop_last-Distinct :
    (u : String) (us : List String)
    → Distinct (u ∷ us)
    → Distinct (pop_last u us).0 × (elem (pop_last u us).1 (pop_last u us).0 ≡ false)
unfolding pop_last
pop_last-Distinct u [] h = (tt, refl)
pop_last-Distinct u (v ∷ us) h =
    let (d, e) = pop_last-Distinct v us h.1 in
    let (r, l) = pop_last v us in
    (
      (ground (arith, elem-pop_last u v us, h.0), d),
      ground (arith, elem-pop_last u v us, h.0, e, eq_iff l u, eq_iff u l),
    )

module _ {F : Type 0} where
  urls-checked :
      (handle : ℕ) (status : Option ℕ) (ws : List (OllamaClient F))
      → urls (map (λ (w : OllamaClient F). if eqb w.handle handle then checked status w else w) ws)
        ≡ urls ws
  unfolding health_check
  urls-checked handle none [] = refl
  urls-checked handle none (w ∷ ws) = ground (arith, urls-checked handle none ws)
  urls-checked handle (some n) [] = refl
  urls-checked handle (some n) (w ∷ ws) = ground (arith, urls-checked handle (some n) ws)

  HasBreaker-urls :
      (d : Dict CircuitBreaker) (ws vs : List (OllamaClient F))
      → urls vs ≡ urls ws
      → All (HasBreaker d) ws
      → All (HasBreaker d) vs
  HasBreaker-urls d [] [] e h = tt
  HasBreaker-urls d [] (v ∷ vs) e h = cc
  HasBreaker-urls d (w ∷ ws) [] e h = cc
  HasBreaker-urls d (w ∷ ws) (v ∷ vs) e h =
      (ground (arith, e, h.0), HasBreaker-urls d ws vs (ground (arith, e)) h.1)

  -- A health check changes neither the pool's URLs nor its breakers.
  check_client-IsPool :
      (handle : Option ℕ) (status : Option ℕ) (lb : LoadBalancer F)
      → IsPool lb
      → IsPool (check_client handle status lb)
        × ((k : String) → has_worker (check_client handle status lb) k ≡ has_worker lb k)
  unfolding check_client has_worker
  check_client-IsPool none status lb h = (h, λ k. refl)
  check_client-IsPool (some handle) status lb h =
      let e = urls-checked handle status lb.workers in
      (
        record {
          serving = HasBreaker-urls lb.breakers lb.workers _ e h.serving;
          distinct = subst Distinct (sym e) h.distinct;
        },
        λ k. any-urls k _ ∙ ap (elem k) e ∙ sym (any-urls k lb.workers),
      )

  -- What happens during an await leaves the pool well formed and with the same URLs.
  unfoldable pub Quiet : (LoadBalancer F → LoadBalancer F) → Type 0
  Quiet during =
      (lb : LoadBalancer F)
      → IsPool lb
      → IsPool (during lb) × ((k : String) → has_worker (during lb) k ≡ has_worker lb k)

  -- The pool is well formed, the URLs that were scaled up are in it, and the standby URLs are not;
  -- neither list has a URL twice.
  pub record IsScaled (a : Autoscaler F) : Type 0 where
    pub pool : IsPool a.balancer
    pub running : (k : String) → elem k a.active_dynamic ≡ true → has_worker a.balancer k ≡ true
    pub waiting : (k : String) → elem k a.standby ≡ true → has_worker a.balancer k ≡ false
    pub active : Distinct a.active_dynamic
    pub standby : Distinct a.standby

  -- The URLs that the autoscaler may use, now or later.
  abbrev pub manages : Autoscaler F → String → Bool
  manages a k = if elem k a.standby then true else elem k a.active_dynamic

  abbrev pub Kept : Autoscaler F → Autoscaler F → Type 0
  Kept a b = IsScaled b × ((k : String) → manages b k ≡ manages a k)

  scale_down_static-Kept :
      (a : Autoscaler F) (now : ℕ) → IsScaled a → Kept a (scale_down_static a now)
  unfolding scale_down_static
  scale_down_static-Kept a now h = elim (List-cases a.active_dynamic) [
    | inl e ↦ subst (λ b. Kept a b) {x = a} (ground (arith, e)) (h, λ k. refl)
    | inr (u, us, e) ↦
        let l = (pop_last u us).1 in
        let (p, r, q) = remove_worker-IsPool a.balancer l h.pool in
        let (d, n) = pop_last-Distinct u us (subst Distinct e h.active) in
        let there = h.running l (ground (arith, e, elem-pop_last l u us, eq_refl l)) in
        subst (λ b. Kept a b)
          {x = record a {
            active_dynamic = (pop_last u us).0;
            balancer = (remove_worker a.balancer l).0;
            standby = l ∷ a.standby;
            last_scale_time = now;
          }}
          (rw (e, scale_down_static) refl)
          (
            record {
              pool = p;
              running =
                  λ k m. ground (arith, e, q k, h.running k, elem-pop_last k u us, eq_iff l k, n);
              waiting = λ k m. ground (arith, q k, h.waiting k, eq_iff l k, eq_iff k l);
              active = d;
              standby = (ground (arith, h.waiting l, there), h.standby);
            },
            λ k. ground (arith, e, elem-pop_last k u us),
          )
  ]

  scale_down-Kept : (a : Autoscaler F) (now : ℕ) → IsScaled a → Kept a (scale_down a now)
  unfolding scale_down
  scale_down-Kept a now h = elim (Bool-cases (leb (running_worker_count a) a.min_workers)) [
    | inl e ↦ subst (λ b. Kept a b) {x = a} (rw (e, scale_down) refl) (h, λ k. refl)
    | inr e ↦
        subst (λ b. Kept a b) {x = scale_down_static a now} (rw (e, scale_down) refl)
          (scale_down_static-Kept a now h)
  ]

module _ {F : Type 0} (ops : Floats F) (during : LoadBalancer F → LoadBalancer F)
    (quiet : Quiet during) where
  scale_up_static-Kept :
      (a : Autoscaler F) (status : Option ℕ) (now : ℕ)
      → IsScaled a
      → Kept a (scale_up_static ops a during status now)
  unfolding scale_up_static Quiet
  scale_up_static-Kept a status now h = elim (List-cases a.standby) [
    | inl e ↦ subst (λ b. Kept a b) {x = a} (ground (arith, e)) (h, λ k. refl)
    | inr (u, us, e) ↦
        let lb = (add_worker ops a.balancer u).0 in
        let (p, added, q, same) = add_worker-IsPool ops a.balancer u h.pool in
        let d = subst Distinct e h.standby in
        let new = h.waiting u (ground (arith, e, eq_refl u)) in
        let (dp, dq) = quiet lb p in
        let (cp, cq) = check_client-IsPool (client_at lb.workers u) status (during lb) dp in
        let idle = λ (k : String) (m : elem k a.active_dynamic ≡ true). h.running k m in
        subst (λ b. Kept a b)
          {x = record a {
            standby = us;
            balancer = check_client (client_at lb.workers u) status (during lb);
            active_dynamic = a.active_dynamic ++ u ∷ [];
            last_scale_time = now;
          }}
          (ground (arith, e, added, new))
          (
            record {
              pool = cp;
              running = λ k m.
                  cq k
                  ∙ dq k
                  ∙ ground (
                    arith,
                    q k,
                    elem-append k a.active_dynamic (u ∷ []),
                    h.running k,
                    eq_iff k u,
                    eq_iff u k,
                  );
              waiting = λ k m.
                  cq k ∙ dq k ∙ ground (arith, e, q k, h.waiting k, eq_iff k u, eq_iff u k, d.0);
              active =
                  Distinct-append_one u a.active_dynamic h.active
                    (ground (arith, h.running u, new));
              standby = d.1;
            },
            λ k. ground (arith, e, elem-append k a.active_dynamic (u ∷ [])),
          )
  ]

  scale_up-Kept :
      (a : Autoscaler F) (status : Option ℕ) (now : ℕ)
      → IsScaled a
      → Kept a (scale_up ops a during status now)
  unfolding scale_up
  scale_up-Kept a status now h = elim (Bool-cases (leb a.max_workers (running_worker_count a))) [
    | inl e ↦ subst (λ b. Kept a b) {x = a} (rw (e, scale_up) refl) (h, λ k. refl)
    | inr e ↦
        subst (λ b. Kept a b) {x = scale_up_static ops a during status now} (rw (e, scale_up) refl)
          (scale_up_static-Kept a status now h)
  ]

  -- If others leave the pool well formed and its URLs alone during the await, a round keeps the
  -- state scaled, and the URLs that the autoscaler manages stay the same.
  pub round-IsScaled :
      (a : Autoscaler F) (depth : ℕ) (status : Option ℕ) (now : ℕ)
      → IsScaled a
      → Kept a (round ops a depth during status now)
  unfolding round
  round-IsScaled a depth status now h = elim (Bool-cases (in_cooldown a now)) [
    | inl e ↦ subst (λ b. Kept a b) {x = a} (rw (e, round) refl) (h, λ k. refl)
    | inr e ↦ elim (Bool-cases (leb a.scale_up_threshold depth)) [
      | inl u ↦
          subst (λ b. Kept a b) {x = scale_up ops a during status now} (rw (e, u, round) refl)
            (scale_up-Kept a status now h)
      | inr u ↦ elim (Bool-cases (leb depth a.scale_down_threshold)) [
        | inl d ↦ elim (Bool-cases (ltb a.min_workers (running_worker_count a))) [
          | inl m ↦
              subst (λ b. Kept a b) {x = scale_down a now} (rw (e, u, d, m, round) refl)
                (scale_down-Kept a now h)
          | inr m ↦ subst (λ b. Kept a b) {x = a} (rw (e, u, d, m, round) refl) (h, λ k. refl)
        ]
        | inr d ↦ subst (λ b. Kept a b) {x = a} (rw (e, u, d, round) refl) (h, λ k. refl)
      ]
    ]
  ]
