-- ===== src/Workers/Pool/Loops.antt =====
-- One round of `_process_loop` and of `_recovery_loop` in workers/worker_pool.py, around a
-- `process_job`. `G` is what a job changes besides Redis: the load balancer and the contexts.
pub mod Process
pub mod Recovery
use fleet_llm_inference.Common.{ℕ, String, Bool, true, false, Option, none, some, List, [], ◌∷◌}
use fleet_llm_inference.Common.Raises.{Exception, Result, ok, raised}
use fleet_llm_inference.Common.Actions.{Action, pure, ◌>>=◌, ◌>>◌, catch}
use fleet_llm_inference.Dict.{Dict}
use fleet_llm_inference.Redis.{Json}
use fleet_llm_inference.Redis.Streams.{Streams}
use fleet_llm_inference.Redis.Results.{ResultStore}
use fleet_llm_inference.JobQueue.Stream.{Queue, TimeText, read, ack}
use fleet_llm_inference.JobQueue.Retry.{RecoveryResult, recover}
use fleet_llm_inference.Workers.Pool.Results.{store_result}

pub record Pool (G S T : Type 0) : Type 0 where
  pub jobs : G
  pub streams : S
  pub results : T

-- An action on one part of the state.
module _ {G S T A : Type 0} where
  abbrev pub on_jobs : Action G A → Action (Pool G S T) A
  on_jobs m s = let (g, r) = m s.jobs in (record s { jobs = g }, r)

  abbrev pub on_streams : Action S A → Action (Pool G S T) A
  on_streams m s = let (g, r) = m s.streams in (record s { streams = g }, r)

  abbrev pub on_results : Action T A → Action (Pool G S T) A
  on_results m s = let (g, r) = m s.results in (record s { results = g }, r)

module _ {G V A : Type 0} (R : Streams) (K : ResultStore) (json : Json V) (answers : Json A)
    (q : Queue) (process_job : Dict V → Action G (String × A)) where
  abbrev pub PoolState : Type 0
  PoolState = Pool G R.State K.State

  -- The lines that both loops run for an entry.
  unfoldable pub handle : String → Dict V → Action PoolState (Unit {0})
  unfolding ack store_result
  handle entry_id payload = do
    done ← on_jobs (process_job payload)
    on_results (store_result K answers done.0 done.1)
    on_streams (ack R q entry_id)

  abbrev pub handle_first : List (String × Dict V) → Action PoolState (Unit {0})
  handle_first [] = pure tt
  handle_first ((entry_id, payload) ∷ entries) = handle entry_id payload

  -- `except Exception`
  abbrev pub ignore : Exception → Action PoolState (Unit {0})
  ignore e = pure tt

  -- One round of the processing loop.
  unfoldable pub process_once : Action PoolState (Unit {0})
  unfolding read handle
  process_once = catch (do entries ← on_streams (read R json q 1); handle_first entries) ignore

  -- The loop over `recovery.retryable`.
  unfoldable pub handle_all : List (String × Dict V) → Action PoolState (Unit {0})
  unfolding handle
  handle_all [] = pure tt
  handle_all ((entry_id, payload) ∷ entries) = do handle entry_id payload; handle_all entries

  abbrev pub handle_retryable : Option (RecoveryResult V) → Action PoolState (Unit {0})
  handle_retryable none = pure tt
  handle_retryable (some recovery) = handle_all recovery.retryable

  -- One round of the recovery loop.
  unfoldable pub recover_once :
      {F : Type 0}
      → TimeText F
      → Json (Dict V)
      → String
      → ℕ
      → ℕ
      → ℕ
      → (String → F)
      → Action PoolState (Unit {0})
  unfolding recover handle_all
  recover_once times payloads dlq_key fuel max_retries min_idle_ms now =
      catch
        (do
          recovery ←
              on_streams (recover R json payloads times dlq_key q fuel max_retries min_idle_ms now)
          handle_retryable recovery)
        ignore
