-- ===== src/Experiments/Load.antt =====
-- scripts/benchmark.py and benchmarks/experiments/agent_bursts.py: requests under a limit, and what is
-- reported of their results. `percentile` is the same function as that of scripts/simulate.py.
use fleet_llm_inference.Common.{
  ℕ, ◌+◌, ◌-◌, Bool, false, Option, none, some, List, [], ◌∷◌, map, eqb, if◌then◌else◌, length,
  keep,
}
use fleet_llm_inference.Common.Floats.{Floats}
use fleet_llm_inference.Common.Sort.{sorted}
use fleet_llm_inference.Common.Raises.{Result, ok, raised, zero_division, ◌>>=◌}
use fleet_llm_inference.Simulate.{RequestResult}
use fleet_llm_inference.Simulate.Report.{percentile, latencies, failures, in_ms}

-- What `one_request` gives: `status` is that of the response, `none` for an exception.
unfoldable pub one_request : {F : Type 0} → F → Option ℕ → F × Bool × ℕ
one_request elapsed none = (elapsed, false, 0)
one_request elapsed (some status) = (elapsed, eqb status 200, status)

-- `Counter(statuses)`, with the codes in the order in which they are first seen
unfoldable pub counted : ℕ → List (ℕ × ℕ) → List (ℕ × ℕ)
counted code [] = (code, 1) ∷ []
counted code ((c, n) ∷ counts) =
    if eqb c code then (c, n + 1) ∷ counts else (c, n) ∷ counted code counts

unfoldable pub counter : List (ℕ × ℕ) → List ℕ → List (ℕ × ℕ)
unfolding counted
counter counts [] = counts
counter counts (code ∷ codes) = counter (counted code counts) codes

abbrev pub last_or : {A : Type 0} → A → List A → A
last_or a [] = a
last_or a (b ∷ rest) = last_or b rest

-- The latencies of the report: mean, percentiles 50, 95 and 99, least and greatest.
pub record Latencies (F : Type 0) : Type 0 where
  pub mean : F
  pub p50 : F
  pub p95 : F
  pub p99 : F
  pub least : F
  pub greatest : F

pub record BenchmarkReport (F : Type 0) : Type 0 where
  pub completed : ℕ
  pub successful : ℕ
  pub failed : ℕ
  pub throughput : F
  pub latency : Option (Latencies F)
  pub status_codes : Option (List (ℕ × ℕ))

module _ {F : Type 0} where
  abbrev pub succeeded : F × Bool × ℕ → Bool
  succeeded (elapsed, success, code) = success

  abbrev pub code_of : F × Bool × ℕ → ℕ
  code_of (elapsed, success, code) = code

  abbrev pub elapsed_of : F × Bool × ℕ → F
  elapsed_of (elapsed, success, code) = elapsed

module _ {F : Type 0} (ops : Floats F) (to_int : F → ℕ) (mean : List F → F) where
  unfoldable pub latencies_of : List F → Result (Option (Latencies F))
  unfolding percentile
  latencies_of [] = ok none
  latencies_of (v ∷ rest) = do
    p50 ← percentile ops to_int (v ∷ rest) 50
    p95 ← percentile ops to_int (v ∷ rest) 95
    p99 ← percentile ops to_int (v ∷ rest) 99
    ok (
        some (record {
          mean = in_ms ops (mean (v ∷ rest));
          p50 = in_ms ops p50;
          p95 = in_ms ops p95;
          p99 = in_ms ops p99;
          least = in_ms ops v;
          greatest = in_ms ops (last_or v rest);
        }))

  -- `run` after the requests, whose number is `n`.
  unfoldable pub benchmark_report : ℕ → List (F × Bool × ℕ) → F → Result (BenchmarkReport F)
  unfolding latencies_of counter
  benchmark_report n results wall =
      let times = sorted ops.less (map elapsed_of (keep succeeded results)) in
      let fail_count = n - length times in
      if ops.same wall (ops.literal 0 1) then raised zero_division else (do
        latency ← latencies_of times
        ok (record {
          completed = n;
          successful = length times;
          failed = fail_count;
          throughput = ops.div (ops.of_int n) wall;
          latency = latency;
          status_codes = if eqb fail_count 0 then none else some (counter [] (map code_of results));
        }))

pub record Scale (F : Type 0) : Type 0 where
  pub agents : ℕ
  pub requests : ℕ
  pub failed : ℕ
  pub throughput : F
  pub p50_ms : F
  pub p95_ms : F
  pub p99_ms : F

module _ {F : Type 0} (ops : Floats F) (to_int : F → ℕ) where
  -- `percentile(latencies, pct) * 1000 if latencies else 0.0`
  abbrev pub ms_or_zero : List F → ℕ → Result F
  ms_or_zero [] pct = ok (ops.literal 0 1)
  ms_or_zero (v ∷ rest) pct = do value ← percentile ops to_int (v ∷ rest) pct; ok (in_ms ops value)

  -- `run_scale` of agent_bursts.py, when the agents have ended with `results` after `wall`.
  unfoldable pub run_scale : ℕ → List (RequestResult F) → F → Result (Scale F)
  unfolding percentile
  run_scale agents results wall = do
    p50 ← ms_or_zero (latencies ops results) 50
    p95 ← ms_or_zero (latencies ops results) 95
    p99 ← ms_or_zero (latencies ops results) 99
    ok (record {
      agents = agents;
      requests = length results;
      failed = failures results;
      throughput =
          if ops.less (ops.literal 0 1) wall
          then ops.div (ops.of_int (length results)) wall
          else ops.literal 0 1;
      p50_ms = p50;
      p95_ms = p95;
      p99_ms = p99;
    })
