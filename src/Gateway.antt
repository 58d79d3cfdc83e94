-- ===== src/Gateway.antt =====
-- gateway/routes.py: the routes /generate and /chat, cut where they await the worker. `failures` are
-- the labels of AGENT_WORKFLOW_FAILURES, `agent_requests` those of AGENT_REQUEST_COUNT, `background`
-- the background tasks that were scheduled; prints and the histogram CONTEXT_TOKENS are left out.
pub mod Routes
pub mod Requests
pub mod Queued
pub mod RegistryRoutes
pub mod Compression
pub mod Reports
pub mod Middleware
pub mod Tests
use fleet_llm_inference.Common.{
  ℕ, ◌+◌, String, Bool, true, false, Option, none, some, List, [], ◌∷◌, ◌++◌, map, ◌==◌, eqb, not,
  is_some, if◌then◌else◌, truthy, join,
}
use fleet_llm_inference.Common.Floats.{Floats}
use fleet_llm_inference.Common.Raises.{Exception, Result, ok, raised, http, is_runtime_error}
use fleet_llm_inference.Common.Actions.{Action, pure, raise, lift, get_state, ◌>>=◌, ◌>>◌, catch}
use fleet_llm_inference.Dict
use fleet_llm_inference.Dict.{Dict}
use fleet_llm_inference.Context.Models.{Stamp, conversation, estimate_tokens}
use fleet_llm_inference.Context.Store
use fleet_llm_inference.Context.Store.{ContextStore}
use fleet_llm_inference.Context.Manager.{record_item}
use fleet_llm_inference.Workers.Client.{OllamaClient}
use fleet_llm_inference.Workers.Client.Requests.{
  Body, Completion, start_request, end_request, generate_result, chat_result,
}
use fleet_llm_inference.Router.Balancer
use fleet_llm_inference.Router.Balancer.{LoadBalancer, pick_worker}

pub record Config : Type 0 where
  pub api_key : String
  pub default_model : String

pub record Gateway (F : Type 0) : Type 0 where
  pub config : Config
  pub balancer : LoadBalancer F
  pub contexts : ContextStore F
  pub agent_requests : List (String × Bool)
  pub failures : List String
  pub background : List (Option String)

pub record AgentMetadata : Type 0 where
  pub agent_id : Option String
  pub workflow_id : Option String
  pub request_id : Option String
  pub parent_request_id : Option String

pub record GenerateRequest : Type 0 where
  pub agent : AgentMetadata
  pub prompt : String
  pub model : Option String
  pub stream : Bool

pub record Message : Type 0 where
  pub role : String
  pub content : String

pub record ChatRequest : Type 0 where
  pub agent : AgentMetadata
  pub messages : List Message
  pub model : Option String

-- `text or default`
abbrev pub text_or : Option String → String → String
text_or text default = elim (truthy text) [ none ↦ default | some t ↦ t ]

-- `if value is not None: meta[key] = value`
abbrev pub put_given : String → Option String → Dict String → Dict String
put_given key none meta = meta
put_given key (some value) meta = Dict.put meta key value

-- The dictionary of resolve_agent_metadata; `uuid` is a fresh uuid4.
unfoldable pub agent_metadata : AgentMetadata → String → Dict String
agent_metadata req uuid = put_given "parent_request_id" req.parent_request_id (
    put_given "workflow_id" req.workflow_id (
      put_given "agent_id" req.agent_id
        (Dict.put Dict.empty "request_id" (text_or req.request_id uuid))))

-- `worker` is read and changed through all references to it.
abbrev pub change_where :
    {F : Type 0} → ℕ → (OllamaClient F → OllamaClient F) → OllamaClient F → OllamaClient F
change_where handle f w = if eqb w.handle handle then f w else w

module _ {F : Type 0} where
  unfoldable pub verify_api_key : Option String → Action (Gateway F) (Unit {0})
  verify_api_key none g = (g, raised (http 401))
  verify_api_key (some x_api_key) g =
      if x_api_key == g.config.api_key then (g, ok tt) else (g, raised (http 401))

  unfoldable pub resolve_agent_metadata :
      AgentMetadata → String → String → Action (Gateway F) (Dict String)
  resolve_agent_metadata req endpoint uuid g = (
    record g { agent_requests = (endpoint, is_some req.agent_id) ∷ g.agent_requests },
    ok (agent_metadata req uuid),
  )

  abbrev pub count_failure : Option String → String → Gateway F → Gateway F
  count_failure none endpoint g = g
  count_failure (some workflow_id) endpoint g = record g { failures = endpoint ∷ g.failures }

  unfoldable pub record_workflow_failure : Dict String → String → Action (Gateway F) (Unit {0})
  record_workflow_failure meta endpoint g =
      (count_failure (Dict.get meta "workflow_id") endpoint g, ok tt)

  abbrev pub tokens_with : Option String → String → ContextStore F → Option ℕ
  tokens_with none content s = none
  tokens_with (some workflow_id) content s =
      some (Store.total_tokens s workflow_id + estimate_tokens content)

  unfoldable pub get_prospective_context_tokens :
      Dict String → String → Action (Gateway F) (Option ℕ)
  get_prospective_context_tokens meta content g =
      (g, ok (tokens_with (Dict.get meta "workflow_id") content g.contexts))

  abbrev pub on_balancer : {A : Type 0} → Action (LoadBalancer F) A → Action (Gateway F) A
  on_balancer m g = (record g { balancer = (m g.balancer).0 }, (m g.balancer).1)

  -- A change of the client object of a handle.
  unfoldable pub change_client :
      ℕ → (OllamaClient F → OllamaClient F) → Action (Gateway F) (Unit {0})
  change_client handle f g = (
    record g {
      balancer = record g.balancer {
        workers = map (λ (w : OllamaClient F). change_where handle f w) g.balancer.workers;
      };
    },
    ok tt,
  )

  -- `except RuntimeError` around `pick_worker`
  unfoldable pub unavailable :
      {A : Type 0} → Dict String → String → Exception → Action (Gateway F) A
  unfolding record_workflow_failure
  unavailable meta endpoint e =
      if is_runtime_error e
      then (record_workflow_failure meta endpoint >> raise (http 503))
      else raise e

  unfoldable pub schedule_compression : Dict String → Action (Gateway F) (Unit {0})
  schedule_compression meta g =
      (record g { background = g.background ++ Dict.get meta "workflow_id" ∷ [] }, ok tt)

  -- `except RuntimeError` around the request to a worker
  unfoldable pub failed :
      {A : Type 0} → Dict String → String → OllamaClient F → ℕ → Exception → Action (Gateway F) A
  unfolding record_workflow_failure
  failed meta endpoint worker now e =
      if is_runtime_error e
      then (on_balancer (Balancer.record_failure worker.stats.url now)
          >> record_workflow_failure meta endpoint
          >> raise (http 503))
      else raise e

module _ {F : Type 0} (ops : Floats F) where
  abbrev pub context_with :
      Option String → Option String → String → Stamp F → ContextStore F → ContextStore F
  context_with none agent_id content stamp s = s
  context_with (some workflow_id) agent_id content stamp s =
      (record_item ops s content conversation (some workflow_id) agent_id none (ops.literal 5 10)
        stamp).0

  unfoldable pub record_context : Dict String → String → Stamp F → Action (Gateway F) (Unit {0})
  record_context meta content stamp g = (
    record g {
      contexts =
          context_with (Dict.get meta "workflow_id") (Dict.get meta "agent_id") content stamp
            g.contexts;
    },
    ok tt,
  )

  -- Both routes up to the request to the worker.
  unfoldable pub admit :
      Dict String → String → String → ℕ → Stamp F → Action (Gateway F) (OllamaClient F)
  unfolding get_prospective_context_tokens record_context
  admit meta endpoint content now stamp = do
    context_tokens ← get_prospective_context_tokens meta content
    worker ← catch (on_balancer (pick_worker ops context_tokens now)) (unavailable meta endpoint)
    record_context meta content stamp
    pure worker

  -- Both routes after the request to the worker, with its `result`.
  unfoldable pub settle :
      {A : Type 0}
      → Dict String
      → String
      → OllamaClient F
      → Result A
      → ℕ
      → Action (Gateway F) (Dict String × A)
  settle meta endpoint worker result now =
      catch
        (do
          a ← lift result
          on_balancer (Balancer.record_success worker.stats.url)
          schedule_compression meta
          pure (meta, a))
        (failed meta endpoint worker now)
