-- ===== src/Workers/Pool.antt =====
-- One job of workers/worker_pool.py, cut where it awaits the worker. The pool works on the load
-- balancer and the context store that the gateway's routes use; Pool/Results has its results in Redis,
-- and Pool/Loops the loops around a job. `none` stands for the result {"error": …}.
pub mod Dispatch
pub mod Results
pub mod Loops
use fleet_llm_inference.Common.{
  ℕ, String, Bool, true, false, Option, none, some, List, [], ◌∷◌, map, truthy, join, if◌then◌else◌,
}
use fleet_llm_inference.Common.Floats.{Floats}
use fleet_llm_inference.Common.Raises.{Exception, Result, ok, raised, is_runtime_error}
use fleet_llm_inference.Common.Actions.{Action, pure, raise, lift, ◌>>=◌, ◌>>◌, catch}
use fleet_llm_inference.Dict.{Dict}
use fleet_llm_inference.Context.Models.{Stamp}
use fleet_llm_inference.Workers.Client.{OllamaClient}
use fleet_llm_inference.Workers.Client.Requests.{
  Reply, Completion, start_request, end_request, end_generate, generate_result, chat_result,
}
use fleet_llm_inference.Router.Balancer
use fleet_llm_inference.Router.Balancer.{pick_worker}
use fleet_llm_inference.Gateway.{Gateway, Message, on_balancer, change_client, context_with}

-- The payload of a job; what is no inference argument is popped from it before the worker is called.
pub record Job : Type 0 where
  pub request_id : String
  pub model : String
  pub prompt : Option String
  pub messages : Option (List Message)
  pub agent_id : Option String
  pub workflow_id : Option String
  pub context_tokens : Option ℕ

-- `job.get("messages", [])`
abbrev pub messages_or_none : Option (List Message) → List Message
messages_or_none none = []
messages_or_none (some messages) = messages

-- `job.get("prompt") or "\n".join(…)`
unfoldable pub content_of : Job → String
content_of job = elim (truthy job.prompt) [
  | none ↦ join "\n" (map (λ (m : Message). m.content) (messages_or_none job.messages))
  | some prompt ↦ prompt
]

module _ {F A : Type 0} where
  -- `except RuntimeError` around `pick_worker`
  abbrev pub no_worker : Exception → Action (Gateway F) (Option A)
  no_worker e = if is_runtime_error e then pure none else raise e

  -- `except RuntimeError` around the request
  abbrev pub job_failed : OllamaClient F → ℕ → Exception → Action (Gateway F) (Option A)
  job_failed worker now e =
      if is_runtime_error e
      then (on_balancer (Balancer.record_failure worker.stats.url now) >> pure none)
      else raise e

  -- The result of a job whose worker has given `result`.
  unfoldable pub settle_job : OllamaClient F → Result A → ℕ → Action (Gateway F) (Option A)
  settle_job worker result now =
      catch
        (do a ← lift result; on_balancer (Balancer.record_success worker.stats.url); pure (some a))
        (job_failed worker now)

module _ {F : Type 0} (ops : Floats F) where
  unfoldable pub record_job : Job → Stamp F → Action (Gateway F) (Unit {0})
  record_job job stamp g = (
    record g {
      contexts = context_with ops job.workflow_id job.agent_id (content_of job) stamp g.contexts;
    },
    ok tt,
  )

  abbrev pub dispatch_to :
      Job → Stamp F → Option (OllamaClient F) → Action (Gateway F) (Option (OllamaClient F))
  dispatch_to job stamp none = pure none
  dispatch_to job stamp (some worker) = do
    record_job job stamp
    change_client worker.handle start_request
    pure (some worker)

  -- A job up to the request to its worker.
  unfoldable pub dispatch : Job → ℕ → Stamp F → Action (Gateway F) (Option (OllamaClient F))
  unfolding record_job change_client start_request
  dispatch job now stamp = do
    worker ←
        catch (do w ← on_balancer (pick_worker ops job.context_tokens now); pure (some w)) no_worker
    dispatch_to job stamp worker

  -- The rest of a job, when the worker has answered after `latency`: with a prompt, and with messages.
  unfoldable pub finish_generate :
      OllamaClient F → F → Reply → ℕ → Action (Gateway F) (Option (Completion F String))
  unfolding settle_job change_client end_generate generate_result
  finish_generate worker latency reply now = do
    change_client worker.handle (end_generate ops latency reply)
    settle_job worker (generate_result ops latency reply worker) now

  unfoldable pub finish_chat :
      OllamaClient F
      → F
      → Reply
      → ℕ
      → Action (Gateway F) (Option (Completion F (Option (Dict String))))
  unfolding settle_job change_client end_request chat_result
  finish_chat worker latency reply now = do
    change_client worker.handle (end_request ops latency reply)
    settle_job worker (chat_result ops latency reply worker) now
