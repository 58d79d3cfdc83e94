-- ===== src/Gateway/Queued.antt =====
-- The route /queued/generate of gateway/routes.py, over the gateway, the stream of the jobs and the
-- store of the results. A result is the dictionary that the pool has stored for a job.
pub mod Outcomes
mod Tests
use fleet_llm_inference.Common.{
  ℕ, String, Bool, true, false, Option, none, some, List, [], ◌∷◌, is_some, if◌then◌else◌, map,
  ◌++◌,
}
use fleet_llm_inference.Common.Raises.{Result, ok, raised, http, or_key_error}
use fleet_llm_inference.Common.Actions.{Action, pure, raise, lift, get_state, ◌>>=◌, ◌>>◌}
use fleet_llm_inference.Dict
use fleet_llm_inference.Dict.{Dict}
use fleet_llm_inference.Redis.{Json}
use fleet_llm_inference.Redis.Streams.{Streams}
use fleet_llm_inference.Redis.Results.{ResultStore}
use fleet_llm_inference.JobQueue.Stream
use fleet_llm_inference.JobQueue.Stream.{Queue}
use fleet_llm_inference.Workers.Pool.Results.{get_result}
use fleet_llm_inference.Workers.Pool.Loops.{Pool, on_jobs, on_streams, on_results}
use fleet_llm_inference.Gateway.{
  Gateway, GenerateRequest, text_or, verify_api_key, resolve_agent_metadata,
  get_prospective_context_tokens, record_workflow_failure,
}

-- A value of a payload or a result.
pub data Value : Type 0 where
  null : Value
  text : String → Value
  number : ℕ → Value

abbrev pub text_value : Option String → Value
text_value none = null
text_value (some t) = text t

abbrev pub number_value : Option ℕ → Value
number_value none = null
number_value (some n) = number n

-- `{**d, **{key: value for …}}`
unfoldable pub update {ℓ} : {V : Type ℓ} → Dict V → List (String × V) → Dict V
update d [] = d
update d ((k, v) ∷ entries) = update (Dict.put d k v) entries

abbrev pub texts : Dict String → Dict Value
texts d = record { entries = map (λ (e : String × String). (e.0, text e.1)) d.entries }

abbrev pub is_empty {ℓ} : {V : Type ℓ} → Dict V → Bool
is_empty d = elim d.entries [ [] ↦ true | e ∷ entries ↦ false ]

-- The payload that the route enqueues.
unfoldable pub payload_of : GenerateRequest → String → Option ℕ → List (String × Value)
payload_of req model context_tokens =
    ("model", text model)
    ∷ ("prompt", text req.prompt)
    ∷ ("agent_id", text_value req.agent.agent_id)
    ∷ ("workflow_id", text_value req.agent.workflow_id)
    ∷ ("parent_request_id", text_value req.agent.parent_request_id)
    ∷ ("context_tokens", number_value context_tokens)
    ∷ []

-- `{"request_id": request_id, **payload}`
unfoldable pub job_of : String → List (String × Value) → Dict Value
unfolding update
job_of request_id payload = update (Dict.put Dict.empty "request_id" (text request_id)) payload

module _ (F : Type 0) (R : Streams) (K : ResultStore) (json : Json Value)
    (results : Json (Dict Value)) (q : Queue) where
  abbrev pub Backend : Type 0
  Backend = Pool (Gateway F) R.State K.State

  -- `enqueue` and `queue_depth` of the worker pool
  unfoldable pub enqueue : String → List (String × Value) → Action Backend String
  unfolding Stream.enqueue job_of
  enqueue request_id payload = on_streams (Stream.enqueue R json q (job_of request_id payload))

  -- The route /queue/depth.
  unfoldable pub queue_depth : Option String → Action Backend ℕ
  unfolding verify_api_key Stream.depth
  queue_depth x_api_key = do on_jobs (verify_api_key x_api_key); on_streams (Stream.depth R q)

  -- The route after the result or the timeout.
  unfoldable pub answer_queued : Dict String → Option (Dict Value) → Action Backend (Dict Value)
  unfolding record_workflow_failure update
  answer_queued meta none = do
    on_jobs (record_workflow_failure meta "/queued/generate")
    raise (http 504)
  answer_queued meta (some result) =
      if is_empty result
      then (do on_jobs (record_workflow_failure meta "/queued/generate"); raise (http 504))
      else if is_some (Dict.get result "error")
      then (do
        on_jobs (record_workflow_failure meta "/queued/generate")
        pure (update (texts meta) result.entries))
      else pure (update (texts meta) result.entries)

  -- `wait` is what happens to the results during a sleep; the timeout is 120 seconds.
  unfoldable pub queued_generate :
      (K.State → K.State) → GenerateRequest → Option String → String → Action Backend (Dict Value)
  unfolding verify_api_key resolve_agent_metadata get_prospective_context_tokens enqueue get_result
      answer_queued
  queued_generate wait req x_api_key uuid = do
    on_jobs (verify_api_key x_api_key)
    meta ← on_jobs (resolve_agent_metadata req.agent "/queued/generate" uuid)
    request_id ← lift (or_key_error (Dict.get meta "request_id"))
    s ← get_state
    context_tokens ← on_jobs (get_prospective_context_tokens meta req.prompt)
    enqueue request_id
        (payload_of req (text_or req.model s.jobs.config.default_model) context_tokens)
    result ← on_results (get_result K results wait request_id 120)
    answer_queued meta result
