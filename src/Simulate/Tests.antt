-- ===== src/Simulate/Tests.antt =====
-- A simulation of two agents, with whole numbers in the place of floats.
use fleet_llm_inference.Common.{
  ℕ, ◌+◌, ◌*◌, ◌/◌, ◌≤◌, true, false, some, List, [], ◌∷◌, ◌≡◌, refl, arith, length, sum_by, Perm,
  Bool-cases, inl, inr, eqb,
}
use fleet_llm_inference.Common.Raises.{ok}
use fleet_llm_inference.Dict
use fleet_llm_inference.Dict.{lookup}
use fleet_llm_inference.Samples.{whole}
use fleet_llm_inference.Simulate.{
  RequestResult, Course, assign_workloads, run_agent, rounds, burst, send, profiles,
}
use fleet_llm_inference.Simulate.Report.{Summary, Row, report}
use fleet_llm_inference.Simulate.Report.Sums.{IsTruncation}
use fleet_llm_inference.Simulate.Run.{gather, run-reports}

-- The clock is 1 later at each reading, and every other request fails.
abbrev course : Course ℕ
course = record { clock = λ i. i; latency = λ i. i + 1; succeeds = λ i. eqb i 0; draw = λ i. i }

whole-IsTruncation : IsTruncation whole (λ n. n)
whole-IsTruncation pct last h = elim (Bool-cases (eqb (pct / 100) 0)) [
  | inl e ↦ small (ground arith)
  | inr e ↦ big (ground arith)
]
  where
    small : pct / 100 ≡ 0 → pct / 100 * last ≤ last
    small e = rw e (omega arith)

    big : pct / 100 ≡ 1 → pct / 100 * last ≤ last
    big e = rw e (omega arith)

abbrev agent_results : List (RequestResult ℕ)
agent_results =
    record { workload = "batch"; latency = 1; succeeded = true; status = 200 }
    ∷ record { workload = "batch"; latency = 2; succeeded = false; status = 0 }
    ∷ []

-- An agent sends two requests before the clock has passed 3.
run_agent_example :
    run_agent whole course "batch" 3 5
    ≡ ok (some (record { readings = 5; requests = 2; bursts = 1; results = agent_results }))
unfolding run_agent rounds burst send profiles Dict.get lookup
run_agent_example = refl

run-reports_example :
    (rs : List (RequestResult ℕ)) × (gather whole
        (λ i. course)
        3
        4
        0
        (assign_workloads 2 "mixed" (λ i. i))
      ≡ ok (some rs))
    × ((results : List (RequestResult ℕ))
        → Perm rs results
        → (s : Summary ℕ) × (report whole (λ n. n) results 1 ≡ ok s)
          × (s.total ≡ length rs)
          × (sum_by (λ (r : Row ℕ). r.requests) s.rows ≡ s.total)
          × (sum_by (λ (r : Row ℕ). r.failed) s.rows ≡ s.failed))
run-reports_example =
    run-reports whole (λ n. n) whole-IsTruncation (λ i. course) 3 1 3 2 "mixed" (λ i. i)
      (λ j i h. ground arith) refl refl
