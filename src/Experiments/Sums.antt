-- ===== src/Experiments/Sums.antt =====
-- The numbers in the report of scripts/benchmark.py.
use fleet_llm_inference.Common.{
  ℕ, ◌+◌, ◌-◌, ◌<◌, Bool, false, Option, none, some, List, [], ◌∷◌, map, eqb, if◌then◌else◌, length,
  length-keep-le, keep, ◌≡◌, refl, arith, sum_by, Bool-cases, inl, inr,
}
use fleet_llm_inference.Common.Floats.{Floats}
use fleet_llm_inference.Common.Sort.{sorted, length-sorted}
use fleet_llm_inference.Common.Raises.{ok}
use fleet_llm_inference.Simulate.Report.{in_ms}
use fleet_llm_inference.Simulate.Report.Sums.{IsTruncation, percentile-returns, length-map}
use fleet_llm_inference.Experiments.Load.{
  BenchmarkReport, Latencies, counter, counted, succeeded, code_of, elapsed_of, latencies_of,
  benchmark_report, last_or,
}

abbrev number : ℕ × ℕ → ℕ
number (code, n) = n

sum_by-counted :
    (code : ℕ) (counts : List (ℕ × ℕ))
    → sum_by number (counted code counts) ≡ sum_by number counts + 1
unfolding counted
sum_by-counted code [] = omega arith
sum_by-counted code ((c, n) ∷ counts) = elim (Bool-cases (eqb c code)) [
  | inl e ↦ rw e (omega arith)
  | inr e ↦ rw e (omega (arith, sum_by-counted code counts))
]

sum_by-counter :
    (counts : List (ℕ × ℕ)) (codes : List ℕ)
    → sum_by number (counter counts codes) ≡ sum_by number counts + length codes
unfolding counter
sum_by-counter counts [] = omega arith
sum_by-counter counts (code ∷ codes) =
    omega (arith, sum_by-counter (counted code counts) codes, sum_by-counted code counts)

module _ {F : Type 0} (ops : Floats F) (to_int : F → ℕ) (mean : List F → F)
    (truncation : IsTruncation ops to_int) where
  latencies_of-returns :
      (values : List F) → (l : Option (Latencies F)) × (latencies_of ops to_int mean values ≡ ok l)
  unfolding latencies_of
  latencies_of-returns [] = (none, refl)
  latencies_of-returns (v ∷ rest) =
      let (a, p) = percentile-returns ops to_int truncation (v ∷ rest) 50 (omega arith) in
      let (b, q) = percentile-returns ops to_int truncation (v ∷ rest) 95 (omega arith) in
      let (c, r) = percentile-returns ops to_int truncation (v ∷ rest) 99 (omega arith) in
      (
        some (record {
          mean = in_ms ops (mean (v ∷ rest));
          p50 = in_ms ops a;
          p95 = in_ms ops b;
          p99 = in_ms ops c;
          least = in_ms ops v;
          greatest = in_ms ops (last_or v rest);
        }),
        rw p (rw q (rw r refl)),
      )

  -- Where truncated ranks are no greater than the last index, the report on all results over a time that
  -- is not zero is made: successes and failures add up to the requests, and so do the status codes, which
  -- are reported just where a request has failed.
  pub benchmark_report-adds_up :
      (results : List (F × Bool × ℕ)) (wall : F)
      → ops.same wall (ops.literal 0 1) ≡ false
      → let n = length results in
        (r : BenchmarkReport F) × (benchmark_report ops to_int mean n results wall ≡ ok r)
        × (r.successful ≡ length (keep succeeded results))
        × (r.successful + r.failed ≡ n)
        × (r.failed ≡ 0 → r.status_codes ≡ none)
        × (0 < r.failed
            → (counts : List (ℕ × ℕ)) × (r.status_codes ≡ some counts)
              × (sum_by (λ (c : ℕ × ℕ). c.1) counts ≡ n))
  unfolding benchmark_report
  benchmark_report-adds_up results wall w =
      let n = length results in
      let times = sorted ops.less (map elapsed_of (keep succeeded results)) in
      let (l, e) = latencies_of-returns times in
      let t = length-sorted ops.less (map elapsed_of (keep succeeded results)) in
      let m = length-map (elapsed_of {F = F}) (keep succeeded results) in
      let k = length-keep-le (succeeded {F = F}) results in
      (
        record {
          completed = n;
          successful = length times;
          failed = n - length times;
          throughput = ops.div (ops.of_int n) wall;
          latency = l;
          status_codes =
              if eqb (n - length times) 0 then none else some (counter [] (map code_of results));
        },
        rw w (rw e refl),
        omega (arith, t, m),
        omega (arith, t, m, k),
        λ z. ground (arith, z),
        λ z. (
          counter [] (map code_of results),
          ground (arith, z),
          omega (
            arith,
            sum_by-counter [] (map code_of results),
            length-map (code_of {F = F}) results,
          ),
        ),
      )
