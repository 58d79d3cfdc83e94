-- ===== src/Simulate/Report/Sums.antt =====
-- The numbers in the report of scripts/simulate.py.
use fleet_llm_inference.Common.{
  ℕ, ◌+◌, ◌-◌, ◌≤◌, String, Bool, true, false, not, ◌&&◌, Option, none, some, List, [], ◌∷◌, map,
  ◌==◌, eqb, leb, if◌then◌else◌, length, get_elem?_total, keep, ◌≡◌, refl, sym, subst, elem, All,
  arith, sum_by, eq_iff, Bool-cases, inl, inr,
}
use fleet_llm_inference.Common.Floats.{Floats}
use fleet_llm_inference.Common.Sort.{length-sorted}
use fleet_llm_inference.Common.Raises.{ok}
use fleet_llm_inference.Simulate.{RequestResult, names}
use fleet_llm_inference.Simulate.Report.{
  Row, Summary, percentile, latencies, failures, of_workload, breakdown, percentiles_of, report,
  in_ms,
}

eq-other : (w a b : String) → (a == b) ≡ false → (w == a) ≡ true → (w == b) ≡ false
eq-other w a b e h = subst (λ x. (x == b) ≡ false) (sym ((eq_iff w a).0 h)) e

pub length-map : {A B : Type 0} (f : A → B) (xs : List A) → length (map f xs) ≡ length xs
length-map f [] = refl
length-map f (x ∷ xs) = omega (arith, length-map f xs)

module _ {F : Type 0} where
  abbrev failing : RequestResult F → ℕ
  failing r = if r.succeeded then 0 else 1

  abbrev one : RequestResult F → ℕ
  one r = 1

  length-one : (rs : List (RequestResult F)) → length rs ≡ sum_by one rs
  length-one [] = refl
  length-one (r ∷ rs) = omega (arith, length-one rs)

  sum_by-keep_cons :
      (f : RequestResult F → ℕ) (p : RequestResult F → Bool) (r : RequestResult F)
      (rs : List (RequestResult F))
      → sum_by f (keep p (r ∷ rs)) ≡ (if p r then f r else 0) + sum_by f (keep p rs)
  sum_by-keep_cons f p r rs = elim (Bool-cases (p r)) [
    | inl e ↦ rw e refl
    | inr e ↦ rw e (omega arith)
  ]

  pub length-succeeded :
      (rs : List (RequestResult F))
      → length (keep (λ r. r.succeeded) rs) + sum_by failing rs ≡ length rs
  length-succeeded [] = refl
  length-succeeded (r ∷ rs) = ground (arith, length-succeeded rs)

  length-failed :
      (rs : List (RequestResult F)) → length (keep (λ r. not r.succeeded) rs) ≡ sum_by failing rs
  length-failed [] = refl
  length-failed (r ∷ rs) = ground (arith, length-failed rs)

  -- The results of the three workloads add up to all results.
  sum_by-of_workload :
      (f : RequestResult F → ℕ) (rs : List (RequestResult F))
      → All (λ (r : RequestResult F). elem r.workload names ≡ true) rs
      → sum_by f (keep (λ r. r.workload == "coding") rs)
          + sum_by f (keep (λ r. r.workload == "research") rs)
          + sum_by f (keep (λ r. r.workload == "batch") rs)
        ≡ sum_by f rs
  sum_by-of_workload f [] a = refl
  sum_by-of_workload f (r ∷ rs) a = ground (
    arith,
    a.0,
    sum_by-of_workload f rs a.1,
    sum_by-keep_cons f (λ v. v.workload == "coding") r rs,
    sum_by-keep_cons f (λ v. v.workload == "research") r rs,
    sum_by-keep_cons f (λ v. v.workload == "batch") r rs,
    eq-other r.workload "coding" "research" refl,
    eq-other r.workload "coding" "batch" refl,
    eq-other r.workload "research" "batch" refl,
  )

module _ {F : Type 0} (ops : Floats F) where
  pub length-latencies :
      (rs : List (RequestResult F)) → length (latencies ops rs) + failures rs ≡ length rs
  length-latencies rs = omega (
    arith,
    length-sorted ops.less (map (λ r. r.latency) (keep (λ r. r.succeeded) rs)),
    length-map (λ (r : RequestResult F). r.latency) (keep (λ r. r.succeeded) rs),
    length-succeeded rs,
    length-failed rs,
  )

module _ {F : Type 0} (ops : Floats F) (to_int : F → ℕ) where
  -- The index of a percentile is none past the last.
  abbrev pub IsTruncation : Type 0
  IsTruncation =
      (pct last : ℕ)
      → pct ≤ 100
      → to_int (ops.mul (ops.div (ops.of_int pct) (ops.of_int 100)) (ops.of_int last)) ≤ last

  module _ (truncation : IsTruncation) where
    pub percentile-returns :
        (values : List F) (pct : ℕ)
        → pct ≤ 100
        → (v : F) × (percentile ops to_int values pct ≡ ok v)
    unfolding percentile
    percentile-returns [] pct h = (ops.literal 0 1, refl)
    percentile-returns (v ∷ []) pct h = (v, refl)
    percentile-returns (v ∷ w ∷ rest) pct h =
        let values = v ∷ w ∷ rest in
        let last = length values - 1 in
        let rank = ops.mul (ops.div (ops.of_int pct) (ops.of_int 100)) (ops.of_int last) in
        let lo = to_int rank in
        let hi = if leb (lo + 1) last then lo + 1 else last in
        let (low, p) = get_elem?_total values lo (omega (arith, truncation pct last h)) in
        let (high, q) = get_elem?_total values hi (ground arith) in
        (ops.add low (ops.mul (ops.sub high low) (ops.sub rank (ops.of_int lo))), rw p (rw q refl))

    breakdown-returns :
        (ns : List String) (rs : List (RequestResult F))
        → (rows : List (Row F)) × (breakdown ops to_int ns rs ≡ ok rows)
          × (sum_by (λ (r : Row F). r.requests) rows ≡ sum_by (λ n. length (of_workload n rs)) ns)
          × (sum_by (λ (r : Row F). r.failed) rows ≡ sum_by (λ n. failures (of_workload n rs)) ns)
    unfolding breakdown
    breakdown-returns [] rs = ([], refl, refl, refl)
    breakdown-returns (n ∷ ns) rs =
        let (rows, p, t, f) = breakdown-returns ns rs in
        let subset = of_workload n rs in
        let (v, q) = percentile-returns (latencies ops subset) 50 (omega arith) in
        let l = length-latencies ops subset in
        let row : Row F = record {
          name = n;
          requests = length (latencies ops subset) + failures subset;
          failed = failures subset;
          p50 = if eqb (length (latencies ops subset)) 0 then ops.literal 0 1 else in_ms ops v;
        } in
        elim (Bool-cases (eqb (length (latencies ops subset)) 0 && eqb (failures subset) 0)) [
          | inl e ↦ (rows, rw p (rw q (rw e refl)), ground (arith, e, l, t), ground (arith, e, f))
          | inr e ↦ (row ∷ rows, rw p (rw q (rw e refl)), omega (arith, l, t), omega (arith, f))
        ]

    percentiles_of-returns :
        (values : List F) → (p : Option (F × F × F)) × (percentiles_of ops to_int values ≡ ok p)
    percentiles_of-returns [] = (none, refl)
    percentiles_of-returns (v ∷ rest) =
        let (a, p) = percentile-returns (v ∷ rest) 50 (omega arith) in
        let (b, q) = percentile-returns (v ∷ rest) 95 (omega arith) in
        let (c, r) = percentile-returns (v ∷ rest) 99 (omega arith) in
        (some (in_ms ops a, in_ms ops b, in_ms ops c), rw p (rw q (rw r refl)))

    -- Where truncated ranks are no greater than the last index, the report of results of known workloads
    -- over a time that is not zero is made: it counts all results, those that succeeded and failed add
    -- up to them, and so do the rows of the breakdown.
    pub report-adds_up :
        (rs : List (RequestResult F)) (wall : F)
        → ops.same wall (ops.literal 0 1) ≡ false
        → All (λ (r : RequestResult F). elem r.workload names ≡ true) rs
        → (s : Summary F) × (report ops to_int rs wall ≡ ok s)
          × (s.total ≡ length rs)
          × (length (latencies ops rs) + s.failed ≡ s.total)
          × (sum_by (λ (r : Row F). r.requests) s.rows ≡ s.total)
          × (sum_by (λ (r : Row F). r.failed) s.rows ≡ s.failed)
    unfolding report
    report-adds_up rs wall w a =
        let (p, e) = percentiles_of-returns (latencies ops rs) in
        let (rows, q, t, f) = breakdown-returns names rs in
        (
          record {
            total = length rs;
            failed = failures rs;
            throughput = ops.div (ops.of_int (length rs)) wall;
            percentiles = p;
            rows = rows;
          },
          rw w (rw e (rw q refl)),
          refl,
          length-latencies ops rs,
          omega (
            arith,
            t,
            length-one rs,
            sum_by-of_workload one rs a,
            length-one (of_workload "coding" rs),
            length-one (of_workload "research" rs),
            length-one (of_workload "batch" rs),
          ),
          omega (
            arith,
            f,
            length-failed rs,
            sum_by-of_workload failing rs a,
            length-failed (of_workload "coding" rs),
            length-failed (of_workload "research" rs),
            length-failed (of_workload "batch" rs),
          ),
        )
