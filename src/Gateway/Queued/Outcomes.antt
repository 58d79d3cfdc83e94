-- ===== src/Gateway/Queued/Outcomes.antt =====
-- What the route /queued/generate of gateway/routes.py answers, and what it leaves.
use fleet_llm_inference.Common.{
  String, ◌≡◌, refl, ap, ◌∙◌, true, false, Option, none, some, List, [], ◌∷◌, ◌++◌, arith, ◌==◌,
  is_some, if◌then◌else◌, eq_refl, Option-cases, Bool-cases, inl, inr,
}
use fleet_llm_inference.Common.Raises.{Result, ok, raised, http}
use fleet_llm_inference.Common.Actions.{◌>>=◌, and_then, and_then-ok}
use fleet_llm_inference.Workers.Pool.Loops.{on_results}
use fleet_llm_inference.Dict
use fleet_llm_inference.Dict.{Dict}
use fleet_llm_inference.Redis.{Json}
use fleet_llm_inference.Redis.Streams.{Streams, IsStreams}
use fleet_llm_inference.Redis.Results.{ResultStore}
use fleet_llm_inference.JobQueue.Fields.{encode_fields}
use fleet_llm_inference.JobQueue.Stream
use fleet_llm_inference.JobQueue.Stream.{Queue}
use fleet_llm_inference.Workers.Pool.Results.{get_result}
use fleet_llm_inference.Gateway.{
  Gateway, GenerateRequest, text_or, agent_metadata, count_failure, tokens_with, verify_api_key,
  resolve_agent_metadata, get_prospective_context_tokens, record_workflow_failure,
}
use fleet_llm_inference.Gateway.Requests.{agent_metadata-get, get-agent_metadata-request_id}
use fleet_llm_inference.Gateway.Queued.{
  Value, is_empty, texts, update, payload_of, job_of, Backend, answer_queued, queued_generate,
  enqueue,
}

module _ (F : Type 0) (R : Streams) (K : ResultStore) (json : Json Value)
    (results : Json (Dict Value)) (q : Queue) (L : IsStreams R) where
  abbrev State : Type 0
  State = Backend F R K json results q

  abbrev pub request_id_of : GenerateRequest → String → String
  request_id_of req uuid = text_or req.agent.request_id uuid

  -- The job of a request, as the route enqueues it.
  abbrev pub job_for : GenerateRequest → String → State → Dict Value
  job_for req uuid s = job_of (request_id_of req uuid) (
      payload_of req (text_or req.model s.jobs.config.default_model)
        (tokens_with req.agent.workflow_id req.prompt s.jobs.contexts))

  -- The labels of the failures after a failure of the request.
  abbrev pub failures_after : GenerateRequest → State → List String
  failures_after req s = (count_failure req.agent.workflow_id "/queued/generate" s.jobs).failures

  abbrev pub body_of : GenerateRequest → String → Dict Value → Dict Value
  body_of req uuid result = update (texts (agent_metadata req.agent uuid)) result.entries

  -- The state while the route waits for the result.
  abbrev waiting : GenerateRequest → String → State → State
  waiting req uuid s = record s {
    jobs = (resolve_agent_metadata req.agent "/queued/generate" uuid s.jobs).0;
    streams = (R.xadd s.streams q.stream_key (encode_fields json (job_for req uuid s))).0;
  }

  queued_generate-waiting :
      (wait : K.State → K.State) (req : GenerateRequest) (api_key uuid : String) (s : State)
      → (api_key == s.jobs.config.api_key) ≡ true
      → queued_generate F R K json results q wait req (some api_key) uuid s
        ≡ and_then
            (on_results
              (get_result K results wait (request_id_of req uuid) 120)
              (waiting req uuid s))
            (answer_queued F R K json results q (agent_metadata req.agent uuid))
  unfolding queued_generate verify_api_key resolve_agent_metadata get_prospective_context_tokens
      enqueue Stream.enqueue
  queued_generate-waiting wait req api_key uuid s h =
      rw
        (
          h,
          get-agent_metadata-request_id req.agent uuid,
          (agent_metadata-get req.agent uuid).0,
          ◌>>=◌,
        )
        refl

  answer_queued-keeps :
      (meta : Dict String) (result : Option (Dict Value)) (s : State)
      → let s' = (answer_queued F R K json results q meta result s).0 in
        (s'.jobs.contexts ≡ s.jobs.contexts) × (s'.streams ≡ s.streams)
  unfolding answer_queued record_workflow_failure
  answer_queued-keeps meta none s = elim (Option-cases (Dict.get meta "workflow_id")) [
    | inl e ↦ (rw e refl, refl)
    | inr (w, e) ↦ (rw e refl, refl)
  ]
  answer_queued-keeps meta (some result) s = elim (Option-cases (Dict.get meta "workflow_id")) [
    | inl e ↦ (ground (arith, e), ground (arith, e))
    | inr (w, e) ↦ (ground (arith, e), ground (arith, e))
  ]

  ending-keeps :
      (meta : Dict String) (p : State × Result (Option (Dict Value)))
      → let s' = (and_then p (answer_queued F R K json results q meta)).0 in
        (s'.jobs.contexts ≡ p.0.jobs.contexts) × (s'.streams ≡ p.0.streams)
  ending-keeps meta (s, ok result) = answer_queued-keeps meta result s
  ending-keeps meta (s, raised e) = (refl, refl)

  counted :
      (w : Option String) (endpoint : String) (g g' : Gateway F)
      → g'.failures ≡ g.failures
      → (count_failure w endpoint g').failures ≡ (count_failure w endpoint g).failures
  counted none endpoint g g' h = h
  counted (some w) endpoint g g' h = ap (◌∷◌ endpoint) h

  failed :
      (req : GenerateRequest) (uuid : String) (s t : State)
      → t.jobs.failures ≡ s.jobs.failures
      → (count_failure
          (Dict.get (agent_metadata req.agent uuid) "workflow_id")
          "/queued/generate"
          t.jobs).failures
        ≡ failures_after req s
  failed req uuid s t h =
      rw ((agent_metadata-get req.agent uuid).0)
        (counted req.agent.workflow_id "/queued/generate" s.jobs t.jobs h)

  answer_queued-none :
      (req : GenerateRequest) (uuid : String) (s t : State)
      → t.jobs.failures ≡ s.jobs.failures
      → let (s', r) = answer_queued F R K json results q (agent_metadata req.agent uuid) none t in
        (r ≡ raised (http 504)) × (s'.jobs.failures ≡ failures_after req s)
  unfolding answer_queued record_workflow_failure
  answer_queued-none req uuid s t h = (refl, failed req uuid s t h)

  answer_queued-some :
      (req : GenerateRequest) (uuid : String) (s t : State) (result : Dict Value)
      → t.jobs.failures ≡ s.jobs.failures
      → is_empty result ≡ false
      → let (s', r) =
          answer_queued F R K json results q (agent_metadata req.agent uuid) (some result) t in
        (r ≡ ok (body_of req uuid result))
        × (s'.jobs.failures
            ≡ (if is_some (Dict.get result "error") then failures_after req s else s.jobs.failures))
  unfolding answer_queued record_workflow_failure
  answer_queued-some req uuid s t result h e =
      elim (Bool-cases (is_some (Dict.get result "error"))) [
        | inl f ↦ (rw (e, f) refl, rw (e, f) (failed req uuid s t h))
        | inr f ↦ (rw (e, f) refl, rw (e, f) h)
      ]

  -- A request with the right key appends one job to the stream. Without a result in time it ends with
  -- status 504 and is counted as a failure of its workflow, if it has one. A result that is not empty is
  -- the answer, after the metadata; it counts as a failure where it has an error. No context is recorded.
  pub queued_generate_lem :
      (wait : K.State → K.State) (req : GenerateRequest) (api_key uuid : String) (s : State)
      → (api_key == s.jobs.config.api_key) ≡ true
      → let (s', r) = queued_generate F R K json results q wait req (some api_key) uuid s in
        let polled = get_result K results wait (request_id_of req uuid) 120 s.results in
        (polled.1 ≡ ok none → (r ≡ raised (http 504)) × (s'.jobs.failures ≡ failures_after req s))
        × ((result : Dict Value)
            → polled.1 ≡ ok (some result)
            → is_empty result ≡ false
            → (r ≡ ok (body_of req uuid result))
              × (s'.jobs.failures ≡ (
                  if is_some (Dict.get result "error")
                  then failures_after req s
                  else s.jobs.failures)))
        × (s'.jobs.contexts ≡ s.jobs.contexts)
        × (L.entries s'.streams q.stream_key
            ≡ L.entries s.streams q.stream_key
              ++ (
                (R.xadd s.streams q.stream_key (encode_fields json (job_for req uuid s))).1,
                encode_fields json (job_for req uuid s),
              )
                ∷ [])
  unfolding resolve_agent_metadata
  queued_generate_lem wait req api_key uuid s h =
      let e = queued_generate-waiting wait req api_key uuid s h in
      let p =
        on_results (get_result K results wait (request_id_of req uuid) 120) (waiting req uuid s) in
      let next = answer_queued F R K json results q (agent_metadata req.agent uuid) in
      (
        λ a. rw (e, and_then-ok p next none a) (answer_queued-none req uuid s p.0 refl),
        λ result a b.
            rw (e, and_then-ok p next (some result) a)
              (answer_queued-some req uuid s p.0 result refl b),
        rw e (ending-keeps (agent_metadata req.agent uuid) p).0,
        rw e (
            rw (ending-keeps (agent_metadata req.agent uuid) p).1 (
              L.entries-xadd s.streams q.stream_key (encode_fields json (job_for req uuid s))
                q.stream_key
              ∙ rw (eq_refl q.stream_key) refl)),
      )
