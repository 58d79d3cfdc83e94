-- ===== src/Router/Balancer/Strategy.antt =====
-- The routing strategies of router/load_balancer.py.
use fleet_llm_inference.Common.{
  ℕ, zero, suc, ◌+◌, ◌%◌, ◌≡◌, refl, sym, ap, ◌∙◌, inl, inr, subst, Bool, true, false, Option, none,
  some, List, [], ◌∷◌, arith, length, All, Bool-cases,
}
use fleet_llm_inference.Common.Floats.{Floats, IsOrder}
use fleet_llm_inference.Common.Raises.{ok}
use fleet_llm_inference.Workers.Client.{OllamaClient}
use fleet_llm_inference.Router.Balancer.{
  LoadBalancer, available_workers, pick_worker, choose, min_by, nth_or, faster, idler,
}
use fleet_llm_inference.Router.Balancer.Eligible.{
  IsServing, eligible, available_workers_lem, eligible-Asked, IsServing-Asked,
}
use fleet_llm_inference.Router.Balancer.Pick.{Among, Among-min_by}

module _ {F : Type 0} (less : OllamaClient F → OllamaClient F → Bool) where
  module _ (irrefl : (x : OllamaClient F) → less x x ≡ false)
      (trans : (x y z : OllamaClient F) → less x y ≡ true → less y z ≡ true → less x z ≡ true)
      (weak : (x y z : OllamaClient F) → less x z ≡ true → less y z ≡ false → less x y ≡ true) where
    -- The minimum is not above the value that it starts from.
    min_by-start :
        (w : OllamaClient F) (ws : List (OllamaClient F)) → less w (min_by less w ws) ≡ false
    unfolding min_by
    min_by-start w [] = irrefl w
    min_by-start w (v ∷ ws) = elim (Bool-cases (less v w)) [
      | inl e ↦
          let m = min_by less v ws in
          let h = min_by-start v ws in
          subst (λ u. less w (min_by less u ws) ≡ false) {x = v} (rw e refl)
            (elim (Bool-cases (less w m)) [
              | inl l ↦ absurd (ground (arith, trans v w m e l))
              | inr l ↦ l
            ])
      | inr e ↦
          subst (λ u. less w (min_by less u ws) ≡ false) {x = w} (rw e refl) (min_by-start w ws)
    ]

    min_by-next :
        (w v : OllamaClient F) (ws : List (OllamaClient F))
        → less v (min_by less w (v ∷ ws)) ≡ false
    unfolding min_by
    min_by-next w v ws = elim (Bool-cases (less v w)) [
      | inl e ↦
          subst (λ u. less v (min_by less u ws) ≡ false) {x = v} (rw e refl) (min_by-start v ws)
      | inr e ↦
          let m = min_by less w ws in
          let h = min_by-start w ws in
          subst (λ u. less v (min_by less u ws) ≡ false) {x = w} (rw e refl)
            (elim (Bool-cases (less v m)) [
              | inl l ↦ absurd (ground (arith, weak v w m l h))
              | inr l ↦ l
            ])
    ]

    min_by-in :
        (ws : List (OllamaClient F)) (w m : OllamaClient F)
        → min_by less w ws ≡ m
        → All (λ v. less v m ≡ false) ws
    unfolding min_by
    min_by-in [] w m e = tt
    min_by-in (v ∷ ws) w m e =
        (subst (λ x. less v x ≡ false) e (min_by-next w v ws), min_by-in ws _ m e)

    -- No value is below the minimum.
    min_by-least :
        (w : OllamaClient F) (ws : List (OllamaClient F))
        → All (λ v. less v (min_by less w ws) ≡ false) (w ∷ ws)
    min_by-least w ws = (min_by-start w ws, min_by-in ws w _ refl)

eligible-rr_index :
    {F : Type 0} (lb : LoadBalancer F) (now : ℕ) (context_tokens : Option ℕ) (i : ℕ)
    → eligible (record lb { rr_index = i }) now context_tokens ≡ eligible lb now context_tokens
unfolding eligible
eligible-rr_index lb now none i = refl
eligible-rr_index lb now (some c) i = refl

module _ {F : Type 0} (ops : Floats F) where
  -- An answer and a state of the load balancer after a query.
  chosen_r :
      (lb : LoadBalancer F) (now : ℕ) (context_tokens : Option ℕ) (w : OllamaClient F)
      (ws : List (OllamaClient F))
      → IsServing lb
      → eligible lb now context_tokens ≡ w ∷ ws
      → pick_worker ops context_tokens now lb
        ≡ choose ops w ws (available_workers context_tokens now lb).0
  unfolding pick_worker
  chosen_r lb now context_tokens w ws h e =
      let (p, a) = available_workers_lem lb context_tokens now h in ground (arith, p, e)

  module _ (lb : LoadBalancer F) (w : OllamaClient F) (ws : List (OllamaClient F)) where
    choose-round_robin :
        lb.settings.routing_strategy ≡ "round_robin"
        → choose ops w ws lb ≡ (
          record lb { rr_index = lb.rr_index + 1 },
          ok (nth_or w ws (lb.rr_index % length (w ∷ ws))),
        )
    unfolding choose
    choose-round_robin s = rw (s) refl

    choose-least_latency :
        lb.settings.routing_strategy ≡ "least_latency"
        → choose ops w ws lb ≡ (lb, ok (min_by (faster ops) w ws))
    unfolding choose
    choose-least_latency s = rw (s) refl

    choose-queue_depth :
        lb.settings.routing_strategy ≡ "queue_depth"
        → choose ops w ws lb ≡ (lb, ok (min_by idler w ws))
    unfolding choose
    choose-queue_depth s = rw (s) refl

  -- Where all workers have breakers, and with the strategy queue_depth, the worker that is picked has the fewest active requests of the
  -- eligible workers, and with least_latency, for floats that are ordered, the least average latency.
  pub pick_worker-least :
      (lb : LoadBalancer F) (now : ℕ) (context_tokens : Option ℕ) (w : OllamaClient F)
      (ws : List (OllamaClient F))
      → IsOrder ops
      → IsServing lb
      → eligible lb now context_tokens ≡ w ∷ ws
      → (lb.settings.routing_strategy ≡ "queue_depth"
          → (v : OllamaClient F) × ((pick_worker ops context_tokens now lb).1 ≡ ok v)
            × Among v (w ∷ ws)
            × All (λ u. idler u v ≡ false) (w ∷ ws))
        × (lb.settings.routing_strategy ≡ "least_latency"
            → (v : OllamaClient F) × ((pick_worker ops context_tokens now lb).1 ≡ ok v)
              × Among v (w ∷ ws)
              × All (λ u. faster ops u v ≡ false) (w ∷ ws))
  pick_worker-least lb now context_tokens w ws o h e =
      let p = chosen_r lb now context_tokens w ws h e in
      let (q, a) = available_workers_lem lb context_tokens now h in
      (
        λ s. (
          min_by idler w ws,
          ap (λ x. x.1)
              (p ∙ choose-queue_depth _ w ws (ap (λ x. x.routing_strategy) a.settings ∙ s)),
          Among-min_by idler w ws,
          min_by-least idler (λ x. ground arith) (λ x y z p q. ground arith)
              (λ x y z p q. ground arith) w ws,
        ),
        λ s. (
          min_by (faster ops) w ws,
          ap (λ x. x.1)
              (p ∙ choose-least_latency _ w ws (ap (λ x. x.routing_strategy) a.settings ∙ s)),
          Among-min_by (faster ops) w ws,
          min_by-least (faster ops) (λ x. o.irrefl _) (λ x y z p q. o.trans _ _ _ p q)
              (λ x y z p q. o.weak _ _ _ p q) w ws,
        ),
      )

  turned :
      (lb : LoadBalancer F) (now : ℕ) (context_tokens : Option ℕ) (w : OllamaClient F)
      (ws : List (OllamaClient F))
      → IsServing lb
      → lb.settings.routing_strategy ≡ "round_robin"
      → eligible lb now context_tokens ≡ w ∷ ws
      → let lb' = (available_workers context_tokens now lb).0 in
        pick_worker ops context_tokens now lb ≡ (
          record lb' { rr_index = lb.rr_index + 1 },
          ok (nth_or w ws (lb.rr_index % length (w ∷ ws))),
        )
  turned lb now context_tokens w ws h s e =
      let p = chosen_r lb now context_tokens w ws h e in
      let (q, a) = available_workers_lem lb context_tokens now h in
      let c = choose-round_robin _ w ws (ap (λ x. x.routing_strategy) a.settings ∙ s) in
      subst
        (λ i. pick_worker ops context_tokens now lb ≡ (
          record (available_workers context_tokens now lb).0 { rr_index = i + 1 },
          ok (nth_or w ws (i % length (w ∷ ws))),
        ))
        a.rr_index (p ∙ c)

  -- The load balancer after some picks, of requests that come at one time.
  unfoldable pub after_picks : ℕ → Option ℕ → ℕ → LoadBalancer F → LoadBalancer F
  after_picks zero context_tokens now lb = lb
  after_picks (suc k) context_tokens now lb =
      after_picks k context_tokens now (pick_worker ops context_tokens now lb).0

  -- Where all workers have breakers, and with the strategy round_robin, consecutive picks at one time go round the eligible workers: the
  -- pick after k others is the worker at the place `rr_index + k`, counted modulo their number.
  pub pick_worker-round_robin :
      (k : ℕ) (lb : LoadBalancer F) (now : ℕ) (context_tokens : Option ℕ) (w : OllamaClient F)
      (ws : List (OllamaClient F))
      → IsServing lb
      → lb.settings.routing_strategy ≡ "round_robin"
      → eligible lb now context_tokens ≡ w ∷ ws
      → (pick_worker ops context_tokens now (after_picks k context_tokens now lb)).1
        ≡ ok (nth_or w ws ((lb.rr_index + k) % length (w ∷ ws)))
  unfolding after_picks
  pick_worker-round_robin zero lb now context_tokens w ws h s e =
      subst
        (λ i. (pick_worker ops context_tokens now lb).1 ≡ ok (nth_or w ws (i % length (w ∷ ws))))
        {x = lb.rr_index} (omega arith) (ap (λ x. x.1) (turned lb now context_tokens w ws h s e))
  pick_worker-round_robin (suc k) lb now context_tokens w ws h s e =
      let asked = (available_workers context_tokens now lb).0 in
      let (q, a) = available_workers_lem lb context_tokens now h in
      let lb' = record asked { rr_index = lb.rr_index + 1 } in
      let rest =
        pick_worker-round_robin k lb' now context_tokens w ws (IsServing-Asked lb asked now a h)
          (ap (λ x. x.routing_strategy) a.settings ∙ s)
          (eligible-rr_index asked now context_tokens _
            ∙ eligible-Asked lb asked now context_tokens a
            ∙ e) in
      let p = ap (λ x. x.0) (turned lb now context_tokens w ws h s e) in
      subst
        (λ u.
          (pick_worker ops context_tokens now (after_picks k context_tokens now u)).1
          ≡ ok (nth_or w ws ((lb.rr_index + suc k) % length (w ∷ ws))))
        (sym p)
        (subst
          (λ i.
            (pick_worker ops context_tokens now (after_picks k context_tokens now lb')).1
            ≡ ok (nth_or w ws (i % length (w ∷ ws))))
          {x = lb.rr_index + 1 + k} (omega arith) rest)
