-- ===== src/Gateway/Requests.antt =====
-- What the routes of gateway/routes.py do with a request: whom it goes to, and what a refusal leaves.
use fleet_llm_inference.Common.{
  ℕ, ◌+◌, ◌≤◌, String, ◌≡◌, ◌≢◌, refl, sym, ap, ◌∙◌, inl, inr, subst, true, false, Option, none,
  some, [], arith, ◌==◌, eq_refl, truthy, List-cases,
}
use fleet_llm_inference.Common.Floats.{Floats}
use fleet_llm_inference.Common.Raises.{
  Exception, is_runtime_error, ok, raised, http, no_capacity, runtime_error,
}
use fleet_llm_inference.Dict
use fleet_llm_inference.Dict.{Dict, get-put, get-empty}
use fleet_llm_inference.Context.Models.{Stamp, estimate_tokens, conversation, post_init}
use fleet_llm_inference.Context.Store.{ContextStore, total_tokens}
use fleet_llm_inference.Context.Store.Invariant.{IsConsistent}
use fleet_llm_inference.Context.Store.View.{total_tokens-add}
use fleet_llm_inference.Context.Manager.{record_item, new_item}
use fleet_llm_inference.Workers.Client.{OllamaClient}
use fleet_llm_inference.Router.Balancer.{pick_worker}
use fleet_llm_inference.Router.Balancer.Eligible.{IsServing, eligible}
use fleet_llm_inference.Router.Balancer.Pick.{IsFit, pick_worker-IsFit, pick_worker-refuses}
use fleet_llm_inference.Gateway.{
  put_given, text_or, Gateway, AgentMetadata, agent_metadata, admit, get_prospective_context_tokens,
  record_context, record_workflow_failure, unavailable, tokens_with, context_with, count_failure,
}

put_given-other :
    (key k : String) (value : Option String) (d : Dict String)
    → (key == k) ≡ false
    → Dict.get (put_given key value d) k ≡ Dict.get d k
put_given-other key k none d e = refl
put_given-other key k (some v) d e = ground (arith, get-put d key k v, e)

put_given-same :
    (key : String) (value : Option String) (d : Dict String)
    → Dict.get d key ≡ none
    → Dict.get (put_given key value d) key ≡ value
put_given-same key none d e = e
put_given-same key (some v) d e = ground (arith, get-put d key key v, eq_refl key)

-- The metadata names the workflow and the agent that the request names.
pub agent_metadata-get :
    (req : AgentMetadata) (uuid : String)
    → (Dict.get (agent_metadata req uuid) "workflow_id" ≡ req.workflow_id)
      × (Dict.get (agent_metadata req uuid) "agent_id" ≡ req.agent_id)
unfolding agent_metadata
agent_metadata-get req uuid =
    let request = Dict.put Dict.empty "request_id" (text_or req.request_id uuid) in
    let agent = put_given "agent_id" req.agent_id request in
    let workflow = put_given "workflow_id" req.workflow_id agent in
    (
      put_given-other "parent_request_id" "workflow_id" req.parent_request_id workflow refl
          ∙ put_given-same "workflow_id" req.workflow_id agent (
              put_given-other "agent_id" "workflow_id" req.agent_id request refl
              ∙ absent "workflow_id" refl),
      put_given-other "parent_request_id" "agent_id" req.parent_request_id workflow refl
          ∙ put_given-other "workflow_id" "agent_id" req.workflow_id agent refl
          ∙ put_given-same "agent_id" req.agent_id request (absent "agent_id" refl),
    )
  where
    absent :
        (k : String)
        → ("request_id" == k) ≡ false
        → Dict.get (Dict.put Dict.empty "request_id" (text_or req.request_id uuid)) k ≡ none
    absent k e =
        get-put Dict.empty "request_id" k (text_or req.request_id uuid)
        ∙ ground (arith, e, get-empty {V = String} k)

-- The metadata has the id of the request, or the fresh one.
pub get-agent_metadata-request_id :
    (req : AgentMetadata) (uuid : String)
    → Dict.get (agent_metadata req uuid) "request_id" ≡ some (text_or req.request_id uuid)
unfolding agent_metadata
get-agent_metadata-request_id req uuid =
    let request = Dict.put Dict.empty "request_id" (text_or req.request_id uuid) in
    let agent = put_given "agent_id" req.agent_id request in
    let workflow = put_given "workflow_id" req.workflow_id agent in
    put_given-other "parent_request_id" "request_id" req.parent_request_id workflow refl
    ∙ put_given-other "workflow_id" "request_id" req.workflow_id agent refl
    ∙ put_given-other "agent_id" "request_id" req.agent_id request refl
    ∙ get-put Dict.empty "request_id" "request_id" (text_or req.request_id uuid)

module _ {F : Type 0} (ops : Floats F) where
  -- A recorded request adds its estimate to the total of its workflow.
  total_tokens-record_item :
      (s : ContextStore F) (content w : String) (agent_id : Option String) (stamp : Stamp F)
      → IsConsistent s
      → Dict.get s.items stamp.id ≡ none
      → truthy (some w) ≡ some w
      → total_tokens (context_with ops (some w) agent_id content stamp s) w
        ≡ total_tokens s w + estimate_tokens content
  unfolding record_item new_item post_init
  total_tokens-record_item s content w agent_id stamp c fresh t =
      total_tokens-add s
        (new_item ops content conversation (some w) agent_id none (ops.literal 5 10) stamp) w c
        fresh t

  module _ (g : Gateway F) (meta : Dict String) (endpoint content : String) (now : ℕ)
      (stamp : Stamp F) where
    admit-ok :
        (o : Option String) (v : OllamaClient F)
        → Dict.get meta "workflow_id" ≡ o
        → (pick_worker ops (tokens_with o content g.contexts) now g.balancer).1 ≡ ok v
        → let (g', r) = admit ops meta endpoint content now stamp g in
          (r ≡ ok v)
          × (g'.contexts ≡ context_with ops o (Dict.get meta "agent_id") content stamp g.contexts)
          × (g'.failures ≡ g.failures)
    unfolding admit get_prospective_context_tokens record_context
    admit-ok o v m p = (ground (arith, m, p), ground (arith, m, p), ground (arith, m, p))

    admit-raised :
        (o : Option String) (e : Exception)
        → Dict.get meta "workflow_id" ≡ o
        → (pick_worker ops (tokens_with o content g.contexts) now g.balancer).1 ≡ raised e
        → is_runtime_error e ≡ true
        → let (g', r) = admit ops meta endpoint content now stamp g in
          (r ≡ raised (http 503))
          × (g'.contexts ≡ g.contexts)
          × (g'.background ≡ g.background)
          × (g'.failures ≡ (count_failure o endpoint g).failures)
    unfolding admit get_prospective_context_tokens unavailable record_workflow_failure
    admit-raised o e m p t = (
      ground (arith, m, p, t),
      ground (arith, m, p, t),
      ground (arith, m, p, t),
      ground (arith, m, p, t),
    )

  -- Where all workers have breakers and the store is consistent, a request of a workflow with a
  -- name that is not empty, under a fresh item id, goes to a fit worker if some worker is eligible
  -- for its tokens, and its content is recorded: the total of the workflow grows by its estimate and
  -- still fits into the worker. No failure is counted.
  pub admit-routed :
      (g : Gateway F) (meta : Dict String) (endpoint content w : String) (now : ℕ) (stamp : Stamp F)
      → IsServing g.balancer
      → IsConsistent g.contexts
      → Dict.get g.contexts.items stamp.id ≡ none
      → Dict.get meta "workflow_id" ≡ some w
      → truthy (some w) ≡ some w
      → eligible g.balancer now (some (total_tokens g.contexts w + estimate_tokens content)) ≢ []
      → let (g', r) = admit ops meta endpoint content now stamp g in
        (v : OllamaClient F) × (r ≡ ok v)
        × IsFit g.balancer now (some (total_tokens g'.contexts w)) v
        × (total_tokens g'.contexts w ≡ total_tokens g.contexts w + estimate_tokens content)
        × (total_tokens g'.contexts w ≤ v.max_context_tokens)
        × (g'.failures ≡ g.failures)
  admit-routed g meta endpoint content w now stamp h c fresh m t some_worker =
      let n = total_tokens g.contexts w + estimate_tokens content in
      let (v, p, fit) = pick_worker-IsFit ops g.balancer now (some n) h some_worker in
      let (q, k, f) = admit-ok g meta endpoint content now stamp (some w) v m p in
      let total =
        ap (λ s. total_tokens s w) k
        ∙ total_tokens-record_item g.contexts content w (Dict.get meta "agent_id") stamp c fresh
            t in
      (
        v,
        q,
        subst (λ u. IsFit g.balancer now (some u) v) (sym total) fit,
        total,
        subst (λ u. u ≤ v.max_context_tokens) (sym total) (fit.capable n refl),
        f,
      )

  -- Where all workers have breakers, a request that no worker is eligible for is answered by 503; no
  -- context is recorded, no background task is scheduled, and the failure is counted where the
  -- request belongs to a workflow.
  pub admit-refused :
      (g : Gateway F) (meta : Dict String) (endpoint content : String) (now : ℕ) (stamp : Stamp F)
      → IsServing g.balancer
      → eligible g.balancer now (tokens_with (Dict.get meta "workflow_id") content g.contexts) ≡ []
      → let (g', r) = admit ops meta endpoint content now stamp g in
        (r ≡ raised (http 503))
        × (g'.contexts ≡ g.contexts)
        × (g'.background ≡ g.background)
        × (g'.failures ≡ (count_failure (Dict.get meta "workflow_id") endpoint g).failures)
  admit-refused g meta endpoint content now stamp h nobody =
      let context_tokens = tokens_with (Dict.get meta "workflow_id") content g.contexts in
      let refusal = pick_worker-refuses ops g.balancer now context_tokens h nobody in
      elim (List-cases (eligible g.balancer now none)) [
        | inl e ↦
            admit-raised g meta endpoint content now stamp (Dict.get meta "workflow_id")
              runtime_error refl (refusal.0 e).0 refl
        | inr (v, vs, e) ↦
            admit-raised g meta endpoint content now stamp (Dict.get meta "workflow_id") no_capacity
              refl (refusal.1 (λ n. cc)).0 refl
      ]
