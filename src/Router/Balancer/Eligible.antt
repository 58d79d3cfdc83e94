-- ===== src/Router/Balancer/Eligible.antt =====
-- The workers that router/load_balancer.py may pick.
use fleet_llm_inference.Common.{
  ℕ, String, ◌≡◌, refl, sym, ap, inl, inr, subst, Bool, true, false, not, Option, none, some, List,
  [], ◌∷◌, arith, eq_iff, if◌then◌else◌, keep, is_some, All, Option-cases,
}
use fleet_llm_inference.Common.Raises.{ok}
use fleet_llm_inference.Dict
use fleet_llm_inference.Dict.{Dict, get-put}
use fleet_llm_inference.Workers.Client.{OllamaClient}
use fleet_llm_inference.Router.Breaker.{CircuitBreaker, is_open}
use fleet_llm_inference.Router.Balancer.{
  LoadBalancer, is_passing, passing_workers, with_capacity, available_workers,
}

-- A second query at the same time has the same answer.
is_open_again :
    (b : CircuitBreaker) (now : ℕ) → (is_open (is_open b now).0 now).1 ≡ (is_open b now).1
unfolding is_open
is_open_again b now = ground arith

-- Whether the breaker of a URL, if it has one, blocks it.
abbrev gate_of : ℕ → Option CircuitBreaker → Option Bool
gate_of now none = none
gate_of now (some b) = some (is_open b now).1

abbrev pub gate : Dict CircuitBreaker → ℕ → String → Option Bool
gate d now url = gate_of now (Dict.get d url)

abbrev pub lets_pass : Option Bool → Bool
lets_pass none = false
lets_pass (some blocked) = not blocked

gate-put :
    (d : Dict CircuitBreaker) (now : ℕ) (url : String) (b : CircuitBreaker) (k : String)
    → Dict.get d url ≡ some b
    → gate (Dict.put d url (is_open b now).0) now k ≡ gate d now k
gate-put d now url b k e =
    ground (arith, get-put d url k (is_open b now).0, is_open_again b now, eq_iff url k)

module _ {F : Type 0} where
  -- A worker that a request may go to: healthy, and not blocked by its breaker.
  abbrev pub passes : Dict CircuitBreaker → ℕ → OllamaClient F → Bool
  passes d now w = if w.stats.is_healthy then lets_pass (gate d now w.stats.url) else false

  abbrev pub HasBreaker : Dict CircuitBreaker → OllamaClient F → Type 0
  HasBreaker d w = is_some (Dict.get d w.stats.url) ≡ true

  keep-passes :
      (d d' : Dict CircuitBreaker) (now : ℕ) (ws : List (OllamaClient F))
      → ((k : String) → gate d' now k ≡ gate d now k)
      → keep (passes d' now) ws ≡ keep (passes d now) ws
  keep-passes d d' now [] h = refl
  keep-passes d d' now (w ∷ ws) h = ground (arith, h w.stats.url, keep-passes d d' now ws h)

  gate-some :
      (d d' : Dict CircuitBreaker) (now : ℕ) (ws : List (OllamaClient F))
      → ((k : String) → gate d' now k ≡ gate d now k)
      → All (HasBreaker d) ws
      → All (HasBreaker d') ws
  gate-some d d' now [] h a = tt
  gate-some d d' now (w ∷ ws) h a =
      (ground (arith, h w.stats.url, a.0), gate-some d d' now ws h a.1)

  -- One worker: the answer, and breakers that answer as before.
  is_passing_lem :
      (w : OllamaClient F) (now : ℕ) (d : Dict CircuitBreaker)
      → HasBreaker d w
      → ((is_passing w now d).1 ≡ ok (passes d now w))
        × ((k : String) → gate (is_passing w now d).0 now k ≡ gate d now k)
  unfolding is_passing
  is_passing_lem w now d h = elim (Option-cases (Dict.get d w.stats.url)) [
    | inl e ↦ absurd (ground arith)
    | inr (b, e) ↦ (ground (arith, e), λ k. ground (arith, e, gate-put d now w.stats.url b k e))
  ]

  passing_workers_lem :
      (ws : List (OllamaClient F)) (now : ℕ) (d : Dict CircuitBreaker)
      → All (HasBreaker d) ws
      → ((passing_workers ws now d).1 ≡ ok (keep (passes d now) ws))
        × ((k : String) → gate (passing_workers ws now d).0 now k ≡ gate d now k)
  unfolding passing_workers
  passing_workers_lem [] now d h = (refl, λ k. refl)
  passing_workers_lem (w ∷ ws) now d h =
      let (p, g) = is_passing_lem w now d h.0 in
      let d' = (is_passing w now d).0 in
      let (q, g') = passing_workers_lem ws now d' (gate-some d d' now ws g h.1) in
      (ground (arith, p, q, keep-passes d d' now ws g), λ k. ground (arith, p, q, g k, g' k))

  -- Every registered worker has a breaker.
  abbrev pub IsServing : LoadBalancer F → Type 0
  IsServing lb = All (HasBreaker lb.breakers) lb.workers

  -- The workers that may be picked: healthy, not blocked, and with the capacity.
  unfoldable pub eligible : LoadBalancer F → ℕ → Option ℕ → List (OllamaClient F)
  eligible lb now context_tokens =
      with_capacity context_tokens (keep (passes lb.breakers now) lb.workers)

  -- The load balancer after a query: breakers may have turned half-open, with the same answers.
  pub record Asked (lb lb' : LoadBalancer F) (now : ℕ) : Type 0 where
    pub workers : lb'.workers ≡ lb.workers
    pub settings : lb'.settings ≡ lb.settings
    pub rr_index : lb'.rr_index ≡ lb.rr_index
    pub rejections : lb'.rejections ≡ lb.rejections
    pub gates : (k : String) → gate lb'.breakers now k ≡ gate lb.breakers now k

  pub available_workers_lem :
      (lb : LoadBalancer F) (context_tokens : Option ℕ) (now : ℕ)
      → IsServing lb
      → ((available_workers context_tokens now lb).1 ≡ ok (eligible lb now context_tokens))
        × Asked lb (available_workers context_tokens now lb).0 now
  unfolding available_workers eligible
  available_workers_lem lb context_tokens now h =
      let (p, g) = passing_workers_lem lb.workers now lb.breakers h in
      (
        ground (arith, p),
        record {
          workers = ground (arith, p);
          settings = ground (arith, p);
          rr_index = ground (arith, p);
          rejections = ground (arith, p);
          gates = λ k. ground (arith, p, g k);
        },
      )

  -- What can be picked does not change by asking.
  pub eligible-Asked :
      (lb lb' : LoadBalancer F) (now : ℕ) (context_tokens : Option ℕ)
      → Asked lb lb' now
      → eligible lb' now context_tokens ≡ eligible lb now context_tokens
  unfolding eligible
  eligible-Asked lb lb' now context_tokens a = ap (with_capacity context_tokens) (
      subst (λ ws. keep (passes lb'.breakers now) ws ≡ keep (passes lb.breakers now) lb.workers)
        (sym a.workers) (keep-passes lb.breakers lb'.breakers now lb.workers a.gates))

  pub IsServing-Asked :
      (lb lb' : LoadBalancer F) (now : ℕ) → Asked lb lb' now → IsServing lb → IsServing lb'
  IsServing-Asked lb lb' now a h =
      subst (All (HasBreaker lb'.breakers)) (sym a.workers)
        (gate-some lb.breakers lb'.breakers now lb.workers a.gates h)
