-- ===== src/Simulate/Run.antt =====
-- `run` of scripts/simulate.py: the agents of one run, and the report on their results.
use fleet_llm_inference.Common.{
  ℕ, zero, suc, ◌+◌, ◌≤◌, String, true, false, Option, none, some, List, [], ◌∷◌, ◌++◌, ◌==◌,
  if◌then◌else◌, length, ◌≡◌, refl, elem, All, All-append, All-map, arith, sum_by, sum_by-perm,
  length-perm, Perm, subst, sym, Bool-cases, inl, inr, ◌%◌,
}
use fleet_llm_inference.Common.Floats.{Floats}
use fleet_llm_inference.Common.Raises.{Result, ok, ◌>>=◌}
use fleet_llm_inference.Simulate.{
  RequestResult, names, choice, assign_workloads, chosen, repeated, Course, Agent, run_agent,
}
use fleet_llm_inference.Simulate.Rounds.{run_agent-ends}
use fleet_llm_inference.Simulate.Report.{Summary, Row, report}
use fleet_llm_inference.Simulate.Report.Sums.{IsTruncation, report-adds_up}

module _ {F : Type 0} where
  abbrev both : Option (Agent F) → Option (List (RequestResult F)) → Option (List (RequestResult F))
  both none rest = none
  both (some a) none = none
  both (some a) (some rest) = some (a.results ++ rest)

module _ {F : Type 0} (ops : Floats F) (courses : ℕ → Course F) (end_time : F) where
  -- The results of the agents, one agent after the other; the i-th agent meets the i-th course.
  unfoldable pub gather : ℕ → ℕ → List String → Result (Option (List (RequestResult F)))
  unfolding run_agent
  gather fuel i [] = ok (some [])
  gather fuel i (workload ∷ workloads) = do
    agent ← run_agent ops (courses i) workload end_time fuel
    rest ← gather fuel (i + 1) workloads
    ok (both agent rest)

  abbrev pub IsNamed : List (RequestResult F) → Type 0
  IsNamed rs = All (λ (r : RequestResult F). elem r.workload names ≡ true) rs

  gather-ends :
      (k : ℕ)
      → ((j i : ℕ) → k ≤ i → ops.less ((courses j).clock i) end_time ≡ false)
      → (workloads : List String) (j : ℕ) → All (λ w. elem w names ≡ true) workloads
      → (rs : List (RequestResult F)) × (gather (k + 1) j workloads ≡ ok (some rs)) × IsNamed rs
  unfolding gather
  gather-ends k passes [] j a = ([], refl, tt)
  gather-ends k passes (w ∷ ws) j a =
      let (agent, p, b, c, n) = run_agent-ends ops (courses j) w end_time k (passes j) a.0 in
      let (rest, q, m) = gather-ends k passes ws (j + 1) a.1 in
      (
        agent.results ++ rest,
        rw p (rw q refl),
        All-append _ agent.results rest
            (All-map _ _ agent.results (λ r e. subst (λ name. elem name names ≡ true) (sym e) a.0)
              n)
            m,
      )

  unnamed : RequestResult F → ℕ
  unnamed r = if elem r.workload names then 0 else 1

  unnamed-none : (rs : List (RequestResult F)) → IsNamed rs → sum_by unnamed rs ≡ 0
  unfolding unnamed
  unnamed-none [] a = refl
  unnamed-none (r ∷ rs) a = ground (arith, unnamed-none rs a.1, a.0)

  none-unnamed : (rs : List (RequestResult F)) → sum_by unnamed rs ≡ 0 → IsNamed rs
  unfolding unnamed
  none-unnamed [] e = tt
  none-unnamed (r ∷ rs) e = (ground arith, none-unnamed rs (ground arith))

  IsNamed-perm : {rs rs' : List (RequestResult F)} → Perm rs rs' → IsNamed rs → IsNamed rs'
  IsNamed-perm {rs} {rs'} p a =
      none-unnamed rs' (omega (arith, sum_by-perm unnamed p, unnamed-none rs a))

choice-named : (n : ℕ) → elem (choice n) names ≡ true
unfolding choice
choice-named zero = refl
choice-named (suc zero) = refl
choice-named (suc (suc n)) = refl

chosen-named : (draw : ℕ → ℕ) (n : ℕ) → All (λ w. elem w names ≡ true) (chosen draw n)
chosen-named draw zero = tt
chosen-named draw (suc n) = (choice-named (draw zero % 3), chosen-named (λ i. draw (suc i)) n)

repeated-named :
    (workload : String) (n : ℕ)
    → elem workload names ≡ true
    → All (λ w. elem w names ≡ true) (repeated workload n)
repeated-named workload zero e = tt
repeated-named workload (suc n) e = (e, repeated-named workload n e)

assign_workloads-named :
    (n : ℕ) (workload : String) (draw : ℕ → ℕ)
    → elem workload ("mixed" ∷ names) ≡ true
    → All (λ w. elem w names ≡ true) (assign_workloads n workload draw)
unfolding assign_workloads
assign_workloads-named n workload draw e = elim (Bool-cases (workload == "mixed")) [
  | inl m ↦ rw m (chosen-named draw n)
  | inr m ↦ rw m (repeated-named workload n (ground (arith, e, m)))
]

module _ {F : Type 0} (ops : Floats F) (to_int : F → ℕ) where
  -- A simulation of one of the workloads, where every agent's clock has passed the end at its k-th
  -- reading, where truncated ranks are no greater than the last index and the time that has passed is
  -- not zero: all agents end within k + 1 rounds, and in whatever order their results come in, the
  -- report on them is made, counts all of them, and the rows of its breakdown add up to the total.
  pub run-reports :
      IsTruncation ops to_int
      → (courses : ℕ → Course F) (end_time wall : F) (k num_agents : ℕ) (workload : String)
        (draw : ℕ → ℕ)
      → ((j i : ℕ) → k ≤ i → ops.less ((courses j).clock i) end_time ≡ false)
      → ops.same wall (ops.literal 0 1) ≡ false
      → elem workload ("mixed" ∷ names) ≡ true
      → (rs : List (RequestResult F)) × (gather ops courses end_time
            (k + 1)
            0
            (assign_workloads num_agents workload draw)
          ≡ ok (some rs))
        × ((results : List (RequestResult F))
            → Perm rs results
            → (s : Summary F) × (report ops to_int results wall ≡ ok s)
              × (s.total ≡ length rs)
              × (sum_by (λ (r : Row F). r.requests) s.rows ≡ s.total)
              × (sum_by (λ (r : Row F). r.failed) s.rows ≡ s.failed))
  run-reports truncation courses end_time wall k num_agents workload draw passes w e =
      let workloads = assign_workloads num_agents workload draw in
      let (rs, g, n) =
        gather-ends ops courses end_time k passes workloads 0
          (assign_workloads-named num_agents workload draw e) in
      (
        rs,
        g,
        λ results p.
            let (s, r, t, l, q, f) =
              report-adds_up ops to_int truncation results wall w
                (IsNamed-perm ops courses end_time p n) in
            (s, r, omega (arith, t, length-perm p), q, f),
      )
