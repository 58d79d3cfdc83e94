-- ===== src/Router/HealthChecker.antt =====
-- One round of the loop in router/health_checker.py: the check of all workers, and the statistics that it
-- prints. `status` gives what each worker answers.
pub mod Joins
use fleet_llm_inference.Common.{
  ℕ, ◌<◌, Bool, true, false, Option, if◌then◌else◌, Bool-cases, inl, inr, none, some, List, [], ◌∷◌,
  map, eqb, ◌≡◌, refl, sym, subst, ◌∙◌, arith, All, Perm, is_some,
}
use fleet_llm_inference.Common.Among.{
  among, among-perm, reverse_onto, among-reverse_onto, All-among,
}
use fleet_llm_inference.Common.Floats.{Floats}
use fleet_llm_inference.Common.Raises.{ok}
use fleet_llm_inference.Common.Actions.{Action}
use fleet_llm_inference.Dict
use fleet_llm_inference.Dict.{Dict}
use fleet_llm_inference.Workers.Client.{OllamaClient}
use fleet_llm_inference.Workers.Client.Requests.{health_check}
use fleet_llm_inference.Router.Breaker.{CircuitBreaker}
use fleet_llm_inference.Router.Balancer.{LoadBalancer}
use fleet_llm_inference.Router.Balancer.Eligible.{HasBreaker, IsServing}
use fleet_llm_inference.Router.Balancer.Health.{
  WorkerReport, Awaited, check_where, check_client, check_clients, health_check_all,
  get_worker_stats, get_worker_stats_lem,
}

-- Whether a response has the status 200.
abbrev pub is_answer : Option ℕ → Bool
is_answer none = false
is_answer (some code) = eqb code 200

abbrev pub handles : {F : Type 0} → LoadBalancer F → List ℕ
handles lb = map (λ w. w.handle) lb.workers

-- What other tasks may do to the balancer while `hs` are checked: every worker keeps a breaker, handles
-- are not given again, and a worker that is there after was there before, with the same health, or has
-- joined as a healthy one under a new handle.
pub record IsOthers {F : Type 0} (hs : List ℕ) (f : LoadBalancer F → LoadBalancer F) : Type 1 where
  pub keeps :
      (lb : LoadBalancer F)
      → IsServing lb
      → All (λ h. h < lb.next_handle) hs
      → IsServing (f lb) × All (λ h. h < (f lb).next_handle) hs
  pub same :
      (lb : LoadBalancer F) (P : ℕ → Bool → Type 0)
      → All (λ h. h < lb.next_handle) hs
      → ((h : ℕ) → among h hs ≡ false → P h true)
      → All (λ (w : OllamaClient F). P w.handle w.stats.is_healthy) lb.workers
      → All (λ (w : OllamaClient F). P w.handle w.stats.is_healthy) (f lb).workers

module _ {F : Type 0} (ops : Floats F) (status : ℕ → Option ℕ) where
  unfoldable pub run_once : Awaited F → Action (LoadBalancer F) (List (WorkerReport F))
  unfolding health_check_all get_worker_stats
  run_once awaited lb =
      let checked = health_check_all status awaited lb in (checked, get_worker_stats ops checked)

  check_where-same :
      (h : ℕ) (w : OllamaClient F)
      → ((check_where status h w).stats.url ≡ w.stats.url)
        × ((check_where status h w).handle ≡ w.handle)
        × ((check_where status h w).stats.is_healthy
            ≡ (if eqb w.handle h then is_answer (status w.handle) else w.stats.is_healthy))
  unfolding health_check
  check_where-same h w = checked (eqb w.handle h) (status w.handle)
    where
      checked :
          (b : Bool) (o : Option ℕ)
          → ((if b then (health_check o w).0 else w).stats.url ≡ w.stats.url)
            × ((if b then (health_check o w).0 else w).handle ≡ w.handle)
            × ((if b then (health_check o w).0 else w).stats.is_healthy
                ≡ (if b then is_answer o else w.stats.is_healthy))
      checked false o = (refl, refl, refl)
      checked true none = (refl, refl, refl)
      checked true (some code) = (refl, refl, refl)

  -- What is known of a health, where `hs` are checked and `answered` have answered.
  Known : List ℕ → List ℕ → ℕ → Bool → Type 0
  Known hs answered h healthy =
      (among h hs ≡ true → among h answered ≡ true → healthy ≡ is_answer (status h))
      × (among h hs ≡ false → healthy ≡ true)

  Knows : List ℕ → List ℕ → LoadBalancer F → Type 0
  Knows hs answered lb =
      IsServing lb
      × All (λ h. h < lb.next_handle) hs
      × All (λ (w : OllamaClient F). Known hs answered w.handle w.stats.is_healthy) lb.workers

  others-Knows :
      (hs answered : List ℕ) (f : LoadBalancer F → LoadBalancer F) (lb : LoadBalancer F)
      → IsOthers hs f
      → Knows hs answered lb
      → Knows hs answered (f lb)
  unfolding Knows Known
  others-Knows hs answered f lb o (serving, created, known) =
      let (s, c) = o.keeps lb serving created in
      (
        s,
        c,
        o.same lb (Known hs answered) created (λ h new. (λ old _. absurd (ground arith), λ _. refl))
            known,
      )

  answer-Known :
      (hs answered : List ℕ) (h k : ℕ) (healthy : Bool)
      → among h hs ≡ true
      → Known hs answered k healthy
      → Known hs (h ∷ answered) k (if eqb k h then is_answer (status k) else healthy)
  unfolding Known
  answer-Known hs answered h k healthy asked (old, new) = elim (Bool-cases (eqb k h)) [
    | inl e ↦ rw e (λ _ _. refl, λ f. absurd (ground (arith, asked, e, f)))
    | inr e ↦ rw e (old, new)
  ]

  client-Known :
      (hs answered : List ℕ) (h : ℕ) (w : OllamaClient F)
      → among h hs ≡ true
      → Known hs answered w.handle w.stats.is_healthy
      → Known hs
          (h ∷ answered)
          (check_where status h w).handle
          (check_where status h w).stats.is_healthy
  client-Known hs answered h w asked known =
      let (_, i, j) = check_where-same h w in
      subst (λ n. Known hs (h ∷ answered) n (check_where status h w).stats.is_healthy) (sym i)
        (subst (Known hs (h ∷ answered) w.handle) (sym j)
          (answer-Known hs answered h w.handle w.stats.is_healthy asked known))

  clients-Knows :
      (hs answered : List ℕ) (d : Dict CircuitBreaker) (h : ℕ) (ws : List (OllamaClient F))
      → among h hs ≡ true
      → All (HasBreaker d) ws
      → All (λ (w : OllamaClient F). Known hs answered w.handle w.stats.is_healthy) ws
      → All (HasBreaker d) (map (check_where status h) ws)
        × All
            (λ (w : OllamaClient F). Known hs (h ∷ answered) w.handle w.stats.is_healthy)
            (map (check_where status h) ws)
  clients-Knows hs answered d h [] asked b k = (tt, tt)
  clients-Knows hs answered d h (w ∷ ws) asked b k =
      let (p, q) = clients-Knows hs answered d h ws asked b.1 k.1 in
      let (e, _, _) = check_where-same h w in
      (
        (subst (λ url. is_some (Dict.get d url) ≡ true) (sym e) b.0, p),
        (client-Known hs answered h w asked k.0, q),
      )

  check_clients-Knows :
      (hs answered : List ℕ) (before : ℕ → LoadBalancer F → LoadBalancer F) (order : List ℕ)
      (lb : LoadBalancer F)
      → ((h : ℕ) → IsOthers hs (before h))
      → All (λ h. among h hs ≡ true) order
      → Knows hs answered lb
      → Knows hs (reverse_onto order answered) (check_clients status before order lb)
  unfolding check_clients check_client Knows
  check_clients-Knows hs answered before [] lb o asked k = k
  check_clients-Knows hs answered before (h ∷ order) lb o asked k =
      let (s, c, l) = others-Knows hs answered (before h) lb (o h) k in
      let (b, m) =
        clients-Knows hs answered (before h lb).breakers h (before h lb).workers asked.0 s l in
      check_clients-Knows hs (h ∷ answered) before order _ o asked.1 (b, c, m)

  start-Known :
      (hs : List ℕ) (ws : List (OllamaClient F))
      → All (λ h. among h hs ≡ true) (map (λ (w : OllamaClient F). w.handle) ws)
      → All (λ (w : OllamaClient F). Known hs [] w.handle w.stats.is_healthy) ws
  unfolding Known
  start-Known hs [] asked = tt
  start-Known hs (w ∷ ws) asked = (
    (λ _ none. absurd (ground (arith, none)), λ new. absurd (ground (arith, asked.0, new))),
    start-Known hs ws asked.1,
  )

  -- The health that is reported of a worker.
  abbrev pub verdict : List ℕ → OllamaClient F → Bool
  verdict hs w = if among w.handle hs then is_answer (status w.handle) else true

  verdicts :
      (hs answered : List ℕ) (ws : List (OllamaClient F))
      → ((h : ℕ) → among h hs ≡ true → among h answered ≡ true)
      → All (λ (w : OllamaClient F). Known hs answered w.handle w.stats.is_healthy) ws
      → map (λ (w : OllamaClient F). w.stats.is_healthy) ws ≡ map (verdict hs) ws
  unfolding Known
  verdicts hs answered [] all_in k = refl
  verdicts hs answered (w ∷ ws) all_in k =
      ground (arith, verdicts hs answered ws all_in k.1, k.0.0, k.0.1, all_in w.handle)

  -- The checks of a round are awaited while the workers answer in any order and other tasks change
  -- the balancer: workers join as healthy ones under new handles, and leave. Where every worker has
  -- a breaker throughout and no handle is given again, the round raises nothing and reports each
  -- worker that is in the pool at its end once, in order: one that was there at its start as
  -- healthy exactly where it has answered by 200, and one that has joined meanwhile, which nothing
  -- has checked, as healthy.
  pub run_once-reports :
      (lb : LoadBalancer F) (awaited : Awaited F)
      → IsServing lb
      → All (λ h. h < lb.next_handle) (handles lb)
      → Perm (awaited.order (handles lb)) (handles lb)
      → ((h : ℕ) → IsOthers (handles lb) (awaited.before h))
      → IsOthers (handles lb) awaited.after
      → let (lb', r) = run_once awaited lb in
        IsServing lb'
        × ((l : List (WorkerReport F)) × (r ≡ ok l)
            × (map (λ (v : WorkerReport F). v.url) l
                ≡ map (λ (w : OllamaClient F). w.stats.url) lb'.workers)
            × (map (λ (v : WorkerReport F). v.healthy) l ≡ map (verdict (handles lb)) lb'.workers))
  unfolding run_once health_check_all Knows
  run_once-reports lb awaited serving created order before after =
      let hs = handles lb in
      let (s, c, k) = others-Knows hs _ awaited.after _ after (
        check_clients-Knows hs [] awaited.before (awaited.order hs) lb before
          (All-among hs (awaited.order hs) (λ h k. sym (among-perm h order) ∙ k))
          (serving, created, start-Known hs lb.workers (All-among hs hs (λ h k. k)))) in
      let (l, e, u, v) = get_worker_stats_lem ops (health_check_all status awaited lb) s in
      (
        s,
        (
          l,
          e,
          u,
          v ∙ verdicts hs _ _ (λ h a. answered (awaited.order hs) h (among-perm h order ∙ a)) k,
        ),
      )
    where
      answered :
          (order : List ℕ) (h : ℕ) → among h order ≡ true → among h (reverse_onto order []) ≡ true
      answered order h a = ground (arith, among-reverse_onto h order [], a)
