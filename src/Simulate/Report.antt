-- ===== src/Simulate/Report.antt =====
-- `percentile`, `run` and `report` of scripts/simulate.py, without the layout of the text.
pub mod Sums
use fleet_llm_inference.Common.{
  ℕ, zero, suc, ◌+◌, ◌-◌, ◌≤◌, ◌<◌, String, Bool, true, false, not, ◌&&◌, Option, none, some, List,
  [], ◌∷◌, ◌++◌, map, ◌==◌, eqb, if◌then◌else◌, length, get_elem?, keep, ◌≡◌, refl, elem, All,
  arith, sum_by, Perm, leb,
}
use fleet_llm_inference.Common.Floats.{Floats}
use fleet_llm_inference.Common.Sort.{sorted}
use fleet_llm_inference.Common.Raises.{Result, ok, raised, index_error, zero_division, ◌>>=◌}
use fleet_llm_inference.Simulate.{RequestResult, names}

-- `values[index]`
abbrev pub or_index_error : {A : Type 0} → Option A → Result A
or_index_error none = raised index_error
or_index_error (some a) = ok a

-- A line of the breakdown.
pub record Row (F : Type 0) : Type 0 where
  pub name : String
  pub requests : ℕ
  pub failed : ℕ
  pub p50 : F

pub record Summary (F : Type 0) : Type 0 where
  pub total : ℕ
  pub failed : ℕ
  pub throughput : F
  pub percentiles : Option (F × F × F)
  pub rows : List (Row F)

module _ {F : Type 0} where
  abbrev pub failures : List (RequestResult F) → ℕ
  failures results = length (keep (λ (r : RequestResult F). not r.succeeded) results)

  abbrev pub of_workload : String → List (RequestResult F) → List (RequestResult F)
  of_workload name results = keep (λ (r : RequestResult F). r.workload == name) results

module _ {F : Type 0} (ops : Floats F) where
  abbrev pub latencies : List (RequestResult F) → List F
  latencies results = sorted ops.less (
      map (λ (r : RequestResult F). r.latency)
        (keep (λ (r : RequestResult F). r.succeeded) results))

  abbrev pub in_ms : F → F
  in_ms value = ops.mul value (ops.of_int 1000)

-- `int(…)` of a float that is not negative is `to_int`.
module _ {F : Type 0} (ops : Floats F) (to_int : F → ℕ) where
  unfoldable pub percentile : List F → ℕ → Result F
  percentile [] pct = ok (ops.literal 0 1)
  percentile (v ∷ []) pct = ok v
  percentile (v ∷ w ∷ rest) pct =
      let sorted_values = v ∷ w ∷ rest in
      let last = length sorted_values - 1 in
      let rank = ops.mul (ops.div (ops.of_int pct) (ops.of_int 100)) (ops.of_int last) in
      let lo = to_int rank in
      let hi = if leb (lo + 1) last then lo + 1 else last in
      let frac = ops.sub rank (ops.of_int lo) in
      (do
        low ← or_index_error (get_elem? sorted_values lo)
        high ← or_index_error (get_elem? sorted_values hi)
        ok (ops.add low (ops.mul (ops.sub high low) frac)))

  -- The rows of the workloads that have results.
  unfoldable pub breakdown : List String → List (RequestResult F) → Result (List (Row F))
  unfolding percentile
  breakdown [] results = ok []
  breakdown (name ∷ others) results =
      let subset = latencies ops (of_workload name results) in
      let sub_failed = failures (of_workload name results) in
      (do
        rows ← breakdown others results
        p50 ← percentile subset 50
        ok (
            if eqb (length subset) 0 && eqb sub_failed 0
            then rows
            else record {
              name = name;
              requests = length subset + sub_failed;
              failed = sub_failed;
              p50 = if eqb (length subset) 0 then ops.literal 0 1 else in_ms ops p50;
            }
              ∷ rows))

  abbrev pub percentiles_of : List F → Result (Option (F × F × F))
  percentiles_of [] = ok none
  percentiles_of (v ∷ rest) = do
    p50 ← percentile (v ∷ rest) 50
    p95 ← percentile (v ∷ rest) 95
    p99 ← percentile (v ∷ rest) 99
    ok (some (in_ms ops p50, in_ms ops p95, in_ms ops p99))

  unfoldable pub report : List (RequestResult F) → F → Result (Summary F)
  unfolding breakdown
  report results wall = if ops.same wall (ops.literal 0 1) then raised zero_division else (do
    percentiles ← percentiles_of (latencies ops results)
    rows ← breakdown names results
    ok (record {
      total = length results;
      failed = failures results;
      throughput = ops.div (ops.of_int (length results)) wall;
      percentiles = percentiles;
      rows = rows;
    }))
