-- ===== src/Simulate/Rounds.antt =====
-- The loops of `run_agent` in scripts/simulate.py, and the clock.
use fleet_llm_inference.Common.{
  ℕ, zero, suc, ◌+◌, ◌≤◌, ◌<◌, String, true, false, some, [], ◌∷◌, length, length-append, ◌≡◌, refl,
  elem, All, All-append, arith, eq_iff, Bool-cases, Option-cases, inl, inr,
}
use fleet_llm_inference.Common.Floats.{Floats}
use fleet_llm_inference.Common.Raises.{ok}
use fleet_llm_inference.Dict
use fleet_llm_inference.Dict.{Dict, lookup}
use fleet_llm_inference.Simulate.{
  WorkloadProfile, RequestResult, profiles, names, randint, Course, Agent, in_time, read_clock,
  send, burst, rounds, run_agent, new_agent,
}

module _ {F : Type 0} (ops : Floats F) (course : Course F) (workload_name : String)
    (end_time : F) where
  -- From its k-th reading on, the clock is not before the end.
  abbrev pub Passes : ℕ → Type 0
  Passes k = (i : ℕ) → k ≤ i → ops.less (course.clock i) end_time ≡ false

  module _ (k : ℕ) (passes : Passes k) where
    -- An agent has one result for each request, and sent none after the end.
    record IsOnTime (a : Agent F) : Type 0 where
      pub behind : a.requests ≤ a.readings
      pub bounded : a.requests ≤ k
      pub counted : length a.results ≡ a.requests
      pub named : All (λ (r : RequestResult F). r.workload ≡ workload_name) a.results

    read_clock-IsOnTime :
        (a : Agent F) → IsOnTime a → IsOnTime (read_clock ops course workload_name end_time a)
    read_clock-IsOnTime a h = record {
      behind = omega (arith, h.behind);
      bounded = h.bounded;
      counted = h.counted;
      named = h.named;
    }

    early : (a : Agent F) → in_time ops course workload_name end_time a ≡ true → a.readings < k
    early a e = ground (arith, passes a.readings)

    send-IsOnTime :
        (a : Agent F)
        → in_time ops course workload_name end_time a ≡ true
        → IsOnTime a
        → IsOnTime (
            send ops course workload_name end_time (read_clock ops course workload_name end_time a))
    unfolding send
    send-IsOnTime a e h = record {
      behind = omega (arith, h.behind);
      bounded = omega (arith, h.behind, early a e);
      counted = omega (arith, h.counted, length-append a.results (_ ∷ []));
      named = All-append _ a.results (_ ∷ []) h.named (refl, tt);
    }

    burst-IsOnTime :
        (n : ℕ) (a : Agent F)
        → IsOnTime a
        → IsOnTime (burst ops course workload_name end_time n a)
          × (a.readings ≤ (burst ops course workload_name end_time n a).readings)
    unfolding burst
    burst-IsOnTime zero a h = (h, omega arith)
    burst-IsOnTime (suc n) a h = elim (Bool-cases (in_time ops course workload_name end_time a)) [
      | inl e ↦ let (s, m) = burst-IsOnTime n _ (send-IsOnTime a e h) in rw e (s, sent m)
      | inr e ↦ rw e (read_clock-IsOnTime a h, omega arith)
    ]
      where
        sent :
            a.readings + 1
              ≤ (burst ops course workload_name end_time n (
                  send ops course workload_name end_time
                    (read_clock ops course workload_name end_time a))).readings
            → a.readings
              ≤ (burst ops course workload_name end_time n (
                  send ops course workload_name end_time
                    (read_clock ops course workload_name end_time a))).readings
        sent m = omega arith

    abbrev drawn : Agent F → Agent F
    drawn a = record (read_clock ops course workload_name end_time a) { bursts = a.bursts + 1 }

    drawn-IsOnTime : (a : Agent F) → IsOnTime a → IsOnTime (drawn a)
    drawn-IsOnTime a h = record {
      behind = omega (arith, h.behind);
      bounded = h.bounded;
      counted = h.counted;
      named = h.named;
    }

    -- With fuel for the readings that are left, the rounds end.
    rounds-ends :
        (profile : WorkloadProfile F) (fuel : ℕ) (a : Agent F)
        → 0 < fuel
        → k < a.readings + fuel
        → IsOnTime a
        → (b : Agent F) × (rounds ops course workload_name end_time profile fuel a ≡ some b)
          × IsOnTime b
    unfolding rounds
    rounds-ends profile zero a z l h = absurd (omega arith)
    rounds-ends profile (suc fuel) a z l h =
        elim (Bool-cases (in_time ops course workload_name end_time a)) [
          | inl e ↦
              let size = randint profile.requests_per_burst (course.draw a.bursts) in
              let (b, m) = burst-IsOnTime size (drawn a) (drawn-IsOnTime a h) in
              let (c, q, o) =
                rounds-ends profile fuel _ (omega (arith, early a e)) (omega (arith, m)) b in
              (c, rw e q, o)
          | inr e ↦
              (read_clock ops course workload_name end_time a, rw e refl, read_clock-IsOnTime a h)
        ]

    new_agent-IsOnTime : IsOnTime (new_agent ops course workload_name end_time)
    new_agent-IsOnTime = record {
      behind = omega arith;
      bounded = omega arith;
      counted = refl;
      named = tt;
    }

  known_profile :
      elem workload_name names ≡ true
      → (profile : WorkloadProfile F) × (Dict.get (profiles ops) workload_name ≡ some profile)
  unfolding profiles Dict.get lookup
  known_profile e = elim (Option-cases (Dict.get (profiles ops) workload_name)) [
    | inl none_there ↦ absurd (
        ground (
          arith,
          eq_iff workload_name "coding",
          eq_iff workload_name "research",
          eq_iff workload_name "batch",
          eq_iff "coding" workload_name,
          eq_iff "research" workload_name,
          eq_iff "batch" workload_name,
        ))
    | inr found ↦ found
  ]

  -- For a workload with a profile, when the clock is not before the end from its k-th reading on, an
  -- agent ends within k + 1 rounds; it has sent at most k requests, and has one result for each of
  -- them, under the name of the workload.
  pub run_agent-ends :
      (k : ℕ)
      → ((i : ℕ) → k ≤ i → ops.less (course.clock i) end_time ≡ false)
      → elem workload_name names ≡ true
      → (a : Agent F) × (run_agent ops course workload_name end_time (k + 1) ≡ ok (some a))
        × (a.requests ≤ k)
        × (length a.results ≡ a.requests)
        × All (λ (r : RequestResult F). r.workload ≡ workload_name) a.results
  unfolding run_agent
  run_agent-ends k passes e =
      let (profile, p) = known_profile e in
      let (a, q, h) =
        rounds-ends k passes profile (k + 1) _ (omega arith) (omega arith)
          (new_agent-IsOnTime k passes) in
      (a, rw p (rw q refl), h.bounded, h.counted, h.named)
