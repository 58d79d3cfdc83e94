-- ===== src/JobQueue/Retry/Recover.antt =====
-- Where `recover` of job_queue/retry.py leaves the jobs.
use mathlib.Core.List.{append-nil, append_assoc, map-append}
use fleet_llm_inference.Common.{
  ℕ, String, ◌≡◌, refl, sym, ap, ◌∙◌, Bool, false, not, Option, none, List, [], ◌∷◌, ◌++◌, map,
  keep, ltb, ◌==◌, arith, eq_iff, eq_refl, if◌then◌else◌, inl, inr, Bool-cases, All, elem, Distinct,
}
use fleet_llm_inference.Common.Raises.{ok}
use fleet_llm_inference.Common.Actions.{Action}
use fleet_llm_inference.Dict.{Dict}
use fleet_llm_inference.Redis.{Json}
use fleet_llm_inference.Redis.Streams.{Streams, IsStreams, Entry}
use fleet_llm_inference.JobQueue.Stream.{Queue, TimeText, ack, dead_letter, dead_fields}
use fleet_llm_inference.JobQueue.Retry.{RecoveryResult, delivery_count, split, or_zero}

module _ {F V : Type 0} (R : Streams) (json : Json V) (payloads : Json (Dict V))
    (times : TimeText F) (dlq_key : String) (q : Queue) (L : IsStreams R) where
  abbrev pub ids : List (String × Dict V) → List String
  ids = map (λ (e : String × Dict V). e.0)

  abbrev pub fields_of : List Entry → List (Dict String)
  fields_of = map (λ (e : Entry). e.1)

  abbrev pub buried : (String → F) → List (String × Dict V) → List (Dict String)
  buried now = map (λ (e : String × Dict V).
      dead_fields R payloads times dlq_key e.0 e.1 "max_retries_exceeded" (now e.0))

  abbrev pub delivered : R.State → String → Option ℕ
  delivered s j = R.delivered s q.stream_key q.group_name j

  abbrev pub exhausted : ℕ → R.State → String × Dict V → Bool
  exhausted max_retries s e = ltb max_retries (or_zero (delivered s e.0))

  abbrev split_by : ℕ → (String → F) → List (String × Dict V) → Action R.State (RecoveryResult V)
  split_by max_retries now = split R json payloads times dlq_key q max_retries now

  still :
      (p : String × Dict V → Bool) (max_retries : ℕ) (s s' : R.State) (i : String)
      (xs : List (String × Dict V))
      → ((j : String) → delivered s' j ≡ (if i == j then none else delivered s j))
      → elem i (ids xs) ≡ false
      → All (λ e. exhausted max_retries s e ≡ p e) xs
      → All (λ e. exhausted max_retries s' e ≡ p e) xs
  still p max_retries s s' i [] d n h = tt
  still p max_retries s s' i (x ∷ xs) d n h =
      (ground (arith, d x.0, n, h.0), still p max_retries s s' i xs d (ground arith) h.1)

  settled :
      (s : R.State) (i : String) (f : Dict String) (j : String)
      → delivered (R.xack (R.xadd s dlq_key f).0 q.stream_key q.group_name i) j
        ≡ (if i == j then none else delivered s j)
  settled s i f j =
      L.delivered-xack (R.xadd s dlq_key f).0 q.stream_key q.group_name i j
      ∙ rw (L.delivered-xadd s dlq_key f q.stream_key q.group_name j) refl

  appended :
      (s : R.State) (i : String) (f : Dict String)
      → fields_of (L.entries (R.xack (R.xadd s dlq_key f).0 q.stream_key q.group_name i) dlq_key)
        ≡ fields_of (L.entries s dlq_key) ++ f ∷ []
  appended s i f =
      ap fields_of (
        L.entries-xack _ q.stream_key q.group_name i dlq_key
        ∙ L.entries-xadd s dlq_key f dlq_key
        ∙ rw (eq_refl dlq_key) refl)
      ∙ map-append (λ (e : Entry). e.1) (L.entries s dlq_key) (((R.xadd s dlq_key f).1, f) ∷ [])

  -- Entries with distinct ids are parted by their delivery counts, in order. Those over the limit are
  -- acknowledged, and are appended to the dead letters; all other pending entries stay pending.
  pub split_lem :
      (p : String × Dict V → Bool) (max_retries : ℕ) (now : String → F)
      (xs : List (String × Dict V)) (s : R.State)
      → Distinct (ids xs)
      → All (λ e. exhausted max_retries s e ≡ p e) xs
      → let (s', r) = split_by max_retries now xs s in
        (r ≡ ok (record { retryable = keep (λ e. not (p e)) xs; dead_lettered = ids (keep p xs) }))
        × (fields_of (L.entries s' dlq_key)
            ≡ fields_of (L.entries s dlq_key) ++ buried now (keep p xs))
        × ((j : String)
            → delivered s' j ≡ (if elem j (ids (keep p xs)) then none else delivered s j))
  unfolding split delivery_count dead_letter ack
  split_lem p max_retries now [] s d h = (refl, sym (append-nil _), λ j. refl)
  split_lem p max_retries now ((i, payload) ∷ xs) s d h = elim (Bool-cases (p (i, payload))) [
    | inl e ↦
        let f = dead_fields R payloads times dlq_key i payload "max_retries_exceeded" (now i) in
        let s₁ = (R.xadd s dlq_key f).0 in
        let s₂ = R.xack s₁ q.stream_key q.group_name i in
        let same = settled s i f in
        let (a, b, c) =
          split_lem p max_retries now xs s₂ d.1 (still p max_retries s s₂ i xs same d.0 h.1) in
        let after : (split_by max_retries now ((i, payload) ∷ xs) s).0
            ≡ (split_by max_retries now xs s₂).0 =
          ground (arith, e, h.0, a) in
        (
          ground (arith, e, h.0, a),
          ap (λ t. fields_of (L.entries t dlq_key)) after
              ∙ b
              ∙ ap (λ l. l ++ buried now (keep p xs)) (appended s i f)
              ∙ append_assoc _ (f ∷ []) _
              ∙ rw e refl,
          λ j.
              ap (λ t. delivered t j) after
              ∙ c j
              ∙ ground (arith, e, same j, eq_iff i j, eq_iff j i),
        )
    | inr e ↦
        let (a, b, c) = split_lem p max_retries now xs s d.1 h.1 in
        (
          ground (arith, e, h.0, a),
          ground (arith, e, h.0, a, b),
          λ j. ground (arith, e, h.0, a, c j),
        )
  ]
