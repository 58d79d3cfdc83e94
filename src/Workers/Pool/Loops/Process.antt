-- ===== src/Workers/Pool/Loops/Process.antt =====
-- What the loops of workers/worker_pool.py do with an entry.
use fleet_llm_inference.Common.{
  ℕ, String, ◌≡◌, refl, ap, sym, subst, Option, none, some, List, [], ◌∷◌, ◌==◌, arith,
  if◌then◌else◌, ◌⊎◌, ◌≢◌, inl, inr,
}
use fleet_llm_inference.Common.Raises.{Exception, Result, ok, raised, Result-cases}
use fleet_llm_inference.Common.Actions.{Action, ◌>>=◌, catch, and_then}
use fleet_llm_inference.Dict.{Dict}
use fleet_llm_inference.Redis.{Json}
use fleet_llm_inference.Redis.Streams.{Streams, IsStreams}
use fleet_llm_inference.Redis.Results.{ResultStore, IsResultStore}
use fleet_llm_inference.JobQueue.Stream.{Queue, read, ack}
use fleet_llm_inference.Workers.Pool.Results.{store_result, result_key}
use fleet_llm_inference.Workers.Pool.Loops.{
  ignore, on_streams, PoolState, handle, handle_first, process_once,
}

module _ {G V A : Type 0} (R : Streams) (K : ResultStore) (json : Json V) (answers : Json A)
    (q : Queue) (process_job : Dict V → Action G (String × A)) (L : IsStreams R)
    (M : IsResultStore K) where
  abbrev State : Type 0
  State = PoolState R K json answers q process_job

  abbrev pub pending : State → String → Option ℕ
  pending s j = R.delivered s.streams q.stream_key q.group_name j

  -- What `process_job` of a payload gives in a state.
  abbrev pub outcome : Dict V → State → Result (String × A)
  outcome payload s = (process_job payload s.jobs).1

  -- The outcome of the payload in `s`, if there is one, is stored in `s'`.
  abbrev pub IsStored : Dict V → State → State → Type 0
  IsStored payload s s' =
      (done : String × A) × (outcome payload s ≡ ok done)
      × (K.get s'.results (result_key done.0) ≡ some (answers.dumps done.1))

  abbrev pub IsSettled : String → State → State → Type 0
  IsSettled i s s' = (j : String) → pending s' j ≡ (if i == j then none else pending s j)

  -- All entries that were pending still are.
  abbrev pub IsKept : State → State → Type 0
  IsKept s s' = (j : String) → pending s' j ≡ pending s j

  -- The job of the payload raises in `s`, or storing its outcome does.
  abbrev pub IsBlocked : Dict V → State → Type 0
  IsBlocked payload s =
      ((e : Exception) × (outcome payload s ≡ raised e))
      ⊎ ((done : String × A) × (outcome payload s ≡ ok done)
          × ((e : Exception) × ((K.setex s.results (result_key done.0) 300 (answers.dumps done.1)).1
                ≡ raised e)))

  handle-ok :
      (i : String) (payload : Dict V) (done : String × A) (s : State)
      → outcome payload s ≡ ok done
      → (K.setex s.results (result_key done.0) 300 (answers.dumps done.1)).1 ≡ ok tt
      → let (s', r) = handle R K json answers q process_job i payload s in
        (r ≡ ok tt) × IsStored payload s s' × IsSettled i s s'
  unfolding handle store_result ack
  handle-ok i payload done s p h = (
    ground (arith, p, h),
    (
      done,
      p,
      ground (arith, p, h, M.get-setex s.results (result_key done.0) 300 (answers.dumps done.1) h),
    ),
    λ j. ground (arith, p, h, L.delivered-xack s.streams q.stream_key q.group_name i j),
  )

  -- An entry is acknowledged alone, and its outcome stored, or the job or SETEX raises and all pending
  -- entries stay pending.
  pub handle_lem :
      (i : String) (payload : Dict V) (s : State)
      → let (s', r) = handle R K json answers q process_job i payload s in
        ((r ≡ ok tt) × IsStored payload s s' × IsSettled i s s')
        ⊎ ((r ≢ ok tt) × IsBlocked payload s × IsKept s s')
  unfolding handle store_result ack
  handle_lem i payload s = elim (Result-cases (outcome payload s)) [
    | inl (done, p) ↦
        elim (Result-cases (K.setex s.results (result_key done.0) 300 (answers.dumps done.1)).1) [
          | inl (u, h) ↦ inl (handle-ok i payload done s p h)
          | inr (e, h) ↦
              inr (λ r. ground (arith, p, h), inr (done, p, (e, h)), λ j. ground (arith, p, h))
        ]
    | inr (e, p) ↦ inr (λ r. ground (arith, p), inl (e, p), λ j. ground (arith, p))
  ]

  abbrev pub after_read : State → State
  after_read s = record s { streams = (read R json q 1 s.streams).0 }

  -- What a round does to the entries, by what it has read.
  abbrev pub IsRound : Result (List (String × Dict V)) → State → State → Type 0
  IsRound (raised e) s s' = IsKept s s'
  IsRound (ok []) s s' = IsKept s s'
  IsRound (ok ((i, payload) ∷ entries)) s s' =
      (IsStored payload s s' × IsSettled i s s') ⊎ (IsBlocked payload s × IsKept s s')

  handle_first-IsRound :
      (entries : Result (List (String × Dict V))) (s : State)
      → IsRound entries s (and_then (s, entries) (handle_first R K json answers q process_job)).0
  handle_first-IsRound (raised e) s = λ j. refl
  handle_first-IsRound (ok []) s = λ j. refl
  handle_first-IsRound (ok ((i, payload) ∷ entries)) s = elim (handle_lem i payload s) [
    | inl (a, b, c) ↦ inl (b, c)
    | inr (a, b, c) ↦ inr (b, c)
  ]

  -- `try: … except Exception: …` never raises, and keeps what was written.
  pub catch-ignore :
      (m : Action State (Unit {0})) (s : State)
      → catch m (ignore R K json answers q process_job) s ≡ ((m s).0, ok tt)
  catch-ignore m s = elim (Result-cases (m s).1) [
    | inl (u, e) ↦ ground (arith, e)
    | inr (p, e) ↦ ground (arith, e)
  ]

  -- A round of the processing loop never raises. When it reads an entry, it stores the outcome of its
  -- payload and acknowledges it alone, unless the job or SETEX raises: then, as where it reads nothing,
  -- all entries that are pending after the read stay pending.
  pub process_once_lem :
      (s : State)
      → let (s', r) = process_once R K json answers q process_job s in
        (r ≡ ok tt) × IsRound (read R json q 1 s.streams).1 (after_read s) s'
  unfolding process_once
  process_once_lem s =
      let m = on_streams (read R json q 1) >>= handle_first R K json answers q process_job in
      let e = catch-ignore m s in
      let entries = (read R json q 1 s.streams).1 in
      (
        ap (λ p. p.1) e,
        subst (IsRound entries (after_read s)) (ap (λ p. p.0) (sym e))
            (handle_first-IsRound entries (after_read s)),
      )
