-- ===== src/Workers/Pool/Loops/Recovery.antt =====
-- What a round of `_recovery_loop` in workers/worker_pool.py does with the entries to retry.
use fleet_llm_inference.Common.{
  ◌⊎◌, ℕ, String, ◌≡◌, refl, ◌∙◌, sym, ap, subst, some, List, [], ◌∷◌, inl, inr,
}
use fleet_llm_inference.Common.Raises.{ok, Result-cases}
use fleet_llm_inference.Common.Actions.{Action, and_then, and_then-ok, and_then-raised}
use fleet_llm_inference.Dict.{Dict}
use fleet_llm_inference.Redis.{Json}
use fleet_llm_inference.Redis.Streams.{Streams, IsStreams}
use fleet_llm_inference.Redis.Results.{ResultStore, IsResultStore}
use fleet_llm_inference.JobQueue.Stream.{Queue, TimeText}
use fleet_llm_inference.JobQueue.Retry.{RecoveryResult, recover}
use fleet_llm_inference.Workers.Pool.Loops.{
  PoolState, handle, handle_all, handle_retryable, on_streams, recover_once,
}
use fleet_llm_inference.Workers.Pool.Loops.Process.{
  IsStored, IsSettled, IsKept, IsBlocked, handle_lem, catch-ignore,
}

module _ {G V A : Type 0} (R : Streams) (K : ResultStore) (json : Json V) (answers : Json A)
    (q : Queue) (process_job : Dict V → Action G (String × A)) (L : IsStreams R)
    (M : IsResultStore K) where
  abbrev State : Type 0
  State = PoolState R K json answers q process_job

  -- The entries are stored and acknowledged one after the other, until one is blocked; no other entry
  -- is acknowledged.
  abbrev pub IsHandled : List (String × Dict V) → State → State → Type 0
  IsHandled [] s s' = IsKept R K json answers q process_job L M s s'
  IsHandled ((i, payload) ∷ entries) s s' =
      ((t : State) × IsStored R K json answers q process_job L M payload s t
        × IsSettled R K json answers q process_job L M i s t
        × IsHandled entries t s')
      ⊎ (IsBlocked R K json answers q process_job L M payload s
          × IsKept R K json answers q process_job L M s s')

  handle_all-IsHandled :
      (entries : List (String × Dict V)) (s : State)
      → IsHandled entries s (handle_all R K json answers q process_job entries s).0
  unfolding handle_all
  handle_all-IsHandled [] s = λ j. refl
  handle_all-IsHandled ((i, payload) ∷ entries) s =
      let p = handle R K json answers q process_job i payload s in
      let rest : Unit {0} → Action State (Unit {0}) =
        λ _. handle_all R K json answers q process_job entries in
      elim (handle_lem R K json answers q process_job L M i payload s) [
        | inl (a, b, c) ↦
            subst (λ x. IsHandled ((i, payload) ∷ entries) s x.0) (sym (and_then-ok p rest tt a))
              (inl (p.0, b, c, handle_all-IsHandled entries p.0))
        | inr (a, b, c) ↦ elim (Result-cases p.1) [
          | inl (u, e) ↦ absurd (a e)
          | inr (x, e) ↦
              subst (λ x. IsHandled ((i, payload) ∷ entries) s x.0)
                (sym (and_then-raised p rest x e)) (inr (b, c))
        ]
      ]

  -- When the reclaimed entries were parted, a round of the recovery loop does not raise, and it handles
  -- those to retry in their order, until a job or SETEX raises: each outcome is stored before its entry
  -- is acknowledged, and all other entries stay pending.
  pub recover_once_lem :
      {F : Type 0} (times : TimeText F) (payloads : Json (Dict V)) (dlq_key : String)
      (fuel max_retries min_idle_ms : ℕ) (now : String → F) (s : State)
      (recovery : RecoveryResult V)
      → (recover R json payloads times dlq_key q fuel max_retries min_idle_ms now s.streams).1
        ≡ ok (some recovery)
      → let streams =
          (recover R json payloads times dlq_key q fuel max_retries min_idle_ms now s.streams).0 in
        let (s', r) =
          recover_once R K json answers q process_job times payloads dlq_key fuel max_retries
            min_idle_ms now s in
        (r ≡ ok tt) × IsHandled recovery.retryable (record s { streams = streams }) s'
  unfolding recover_once
  recover_once_lem times payloads dlq_key fuel max_retries min_idle_ms now s recovery h =
      let p =
        on_streams (recover R json payloads times dlq_key q fuel max_retries min_idle_ms now) s in
      let next = handle_retryable R K json answers q process_job in
      let e =
        catch-ignore R K json answers q process_job L M
          (λ s.
            and_then
              (on_streams (recover R json payloads times dlq_key q fuel max_retries min_idle_ms now)
                s)
              next)
          s in
      (
        ap (λ p. p.1) e,
        subst (IsHandled recovery.retryable p.0)
            (sym (ap (λ p. p.0) e ∙ ap (λ p. p.0) (and_then-ok p next (some recovery) h)))
            (handle_all-IsHandled recovery.retryable p.0),
      )
