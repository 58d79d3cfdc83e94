-- ===== src/Router/Balancer/Known.antt =====
-- The worker objects of router/load_balancer.py while it is asked for one of them.
use fleet_llm_inference.Common.{
  ℕ, ◌≡◌, refl, sym, ◌∙◌, inl, inr, subst, String, Bool, true, false, Option, none, some, List, [],
  ◌∷◌, arith, leb, All, All-keep, if◌then◌else◌,
}
use fleet_llm_inference.Common.Floats.{Floats}
use fleet_llm_inference.Common.Actions.Post.{Returns, Returns-anything, Post, and_then-Post}
use fleet_llm_inference.Dict.{Dict}
use fleet_llm_inference.Workers.Client.{OllamaClient}
use fleet_llm_inference.Router.Breaker.{CircuitBreaker}
use fleet_llm_inference.Router.Balancer.{
  LoadBalancer, is_passing, passing_workers, with_capacity, available_workers, choose, choose_from,
  refuse, refuse_with, pick_worker, on_breaker, on_breakers,
}
use fleet_llm_inference.Router.Balancer.Pick.{Among, choose-Among}

module _ {F : Type 0} where
  -- The same workers, and as many were created.
  abbrev pub SamePool : LoadBalancer F → LoadBalancer F → Type 0
  SamePool lb lb' = (lb'.workers ≡ lb.workers) × (lb'.next_handle ≡ lb.next_handle)

  pub on_breaker-SamePool :
      (url : String) (f : CircuitBreaker → CircuitBreaker) (lb : LoadBalancer F)
      → SamePool lb (on_breaker url f lb).0
  unfolding on_breaker
  on_breaker-SamePool url f lb = (ground arith, ground arith)

  module _ (P : OllamaClient F → Type 0) where
    All-Among : (w : OllamaClient F) (ws : List (OllamaClient F)) → All P ws → Among w ws → P w
    All-Among w [] a h = absurd h
    All-Among w (v ∷ ws) a (inl e) = subst P e a.0
    All-Among w (v ∷ ws) a (inr h) = All-Among w ws a.1 h

    All-if :
        (b : Bool) (w : OllamaClient F) (ws : List (OllamaClient F))
        → P w
        → All P ws
        → All P (if b then w ∷ ws else ws)
    All-if true w ws p a = (p, a)
    All-if false w ws p a = a

    passing_workers-All :
        (ws : List (OllamaClient F)) (now : ℕ) (d : Dict CircuitBreaker)
        → All P ws
        → Returns (All P) (passing_workers ws now d).1
    unfolding passing_workers
    passing_workers-All [] now d a = tt
    passing_workers-All (w ∷ ws) now d a =
        and_then-Post {R = λ _. Unit {0}} {P = λ _. Unit {0}} (λ q. Returns (All P) q.1)
          (is_passing w now d) _ (tt, Returns-anything _)
          (λ passes d' _ _.
            and_then-Post {R = λ _. Unit {0}} {P = All P} (λ q. Returns (All P) q.1)
              (passing_workers ws now d') _ (tt, passing_workers-All ws now d' a.1)
              (λ rest _ _ r. All-if passes w rest a.0 r) (λ _ _ _. tt))
          (λ _ _ _. tt)

    with_capacity-All :
        (context_tokens : Option ℕ) (ws : List (OllamaClient F))
        → All P ws
        → All P (with_capacity context_tokens ws)
    with_capacity-All none ws a = a
    with_capacity-All (some n) ws a = All-keep P (λ w. leb n w.max_context_tokens) ws a

    available_workers-All :
        (lb : LoadBalancer F) (context_tokens : Option ℕ) (now : ℕ)
        → All P lb.workers
        → Post (SamePool lb) (All P) (available_workers context_tokens now lb)
    unfolding available_workers
    available_workers-All lb context_tokens now a =
        and_then-Post (Post (SamePool lb) (All P)) (on_breakers (passing_workers lb.workers now) lb)
          _ ((refl, refl), passing_workers-All lb.workers now lb.breakers a)
          (λ healthy _ s h. (s, with_capacity-All context_tokens healthy h)) (λ _ _ s. (s, tt))

module _ {F : Type 0} (ops : Floats F) (P : OllamaClient F → Type 0) where
  choose-All :
      (w : OllamaClient F) (ws : List (OllamaClient F)) (lb : LoadBalancer F)
      → All P (w ∷ ws)
      → Post (SamePool lb) P (choose ops w ws lb)
  unfolding choose
  choose-All w ws lb a =
      let (v, e, m) = choose-Among ops w ws lb in
      (choose-SamePool, subst (Returns P) (sym e) (All-Among P v (w ∷ ws) a m))
    where
      choose-SamePool : SamePool lb (choose ops w ws lb).0
      choose-SamePool = (ground arith, ground arith)

  refuse_with-raises :
      (ws : List (OllamaClient F)) (lb : LoadBalancer F)
      → Post (SamePool lb) P (refuse_with ops ws lb)
  refuse_with-raises [] lb = ((refl, refl), tt)
  refuse_with-raises (w ∷ ws) lb = ((refl, refl), tt)

  refuse-raises :
      (lb : LoadBalancer F) (context_tokens : Option ℕ) (now : ℕ)
      → All P lb.workers
      → Post (SamePool lb) P (refuse ops context_tokens now lb)
  unfolding refuse
  refuse-raises lb none now a = ((refl, refl), tt)
  refuse-raises lb (some n) now a =
      and_then-Post (Post (SamePool lb) P) (available_workers none now lb) _
        (available_workers-All P lb none now a)
        (λ others lb' s _.
          let (s', r) = refuse_with-raises others lb' in ((s'.0 ∙ s.0, s'.1 ∙ s.1), r))
        (λ _ _ s. (s, tt))

  choose_from-All :
      (context_tokens : Option ℕ) (now : ℕ) (ws : List (OllamaClient F)) (lb : LoadBalancer F)
      → All P lb.workers
      → All P ws
      → Post (SamePool lb) P (choose_from ops context_tokens now ws lb)
  choose_from-All context_tokens now [] lb a b = refuse-raises lb context_tokens now a
  choose_from-All context_tokens now (w ∷ ws) lb a b = choose-All w ws lb b

  -- A pick changes no worker, and what holds of all workers holds of the one that is picked.
  pub pick_worker-All :
      (lb : LoadBalancer F) (context_tokens : Option ℕ) (now : ℕ)
      → All P lb.workers
      → Post (SamePool lb) P (pick_worker ops context_tokens now lb)
  unfolding pick_worker
  pick_worker-All lb context_tokens now a =
      and_then-Post (Post (SamePool lb) P) (available_workers context_tokens now lb) _
        (available_workers-All P lb context_tokens now a)
        (λ ws lb' s b.
          let (s', r) = choose_from-All context_tokens now ws lb' (subst (All P) (sym s.0) a) b in
          ((s'.0 ∙ s.0, s'.1 ∙ s.1), r))
        (λ _ _ s. (s, tt))
