-- ===== src/Gateway/Compression.antt =====
-- `maybe_compress_context` of gateway/routes.py, and `llm_summarizer` of context/compression.py, cut
-- where it awaits the worker.
use fleet_llm_inference.Common.{ℕ, String, ◌<>◌, Option, none, some, if◌then◌else◌}
use fleet_llm_inference.Common.Floats.{Floats}
use fleet_llm_inference.Common.Raises.{Exception, Result, ok, raised, is_runtime_error}
use fleet_llm_inference.Common.Actions.{Action, pure, raise, lift, get_state, catch, ◌>>=◌, ◌>>◌}
use fleet_llm_inference.Context.Models.{Stamp}
use fleet_llm_inference.Context.Store.{ContextStore}
use fleet_llm_inference.Context.Manager.{compress_if_over_budget}
use fleet_llm_inference.Workers.Client.{OllamaClient}
use fleet_llm_inference.Workers.Client.Requests.{
  Reply, Completion, start_request, end_generate, generate_result,
}
use fleet_llm_inference.Router.Balancer
use fleet_llm_inference.Router.Balancer.{pick_worker}
use fleet_llm_inference.Gateway.{Gateway, text_or, on_balancer, change_client}

abbrev pub summary_prompt : String → String
summary_prompt text =
    "Summarize the following conversation/context concisely, keeping only information likely to matter for continuing the task:\n\n"
    <> text

-- `except RuntimeError` around the compression: the workflow stays as it is.
abbrev pub skipped : {A : Type 0} → Result A → Result (Unit {0})
skipped (ok a) = ok tt
skipped (raised e) = if is_runtime_error e then ok tt else raised e

module _ {F : Type 0} where
  -- `except RuntimeError` around the request of the summarizer
  abbrev pub summary_failed : {A : Type 0} → OllamaClient F → ℕ → Exception → Action (Gateway F) A
  summary_failed worker now e =
      if is_runtime_error e
      then (on_balancer (Balancer.record_failure worker.stats.url now) >> raise e)
      else raise e

  -- The summarizer, when its worker has given `result`.
  unfoldable pub settle_summary :
      OllamaClient F → Result (Completion F String) → ℕ → Action (Gateway F) String
  settle_summary worker result now =
      catch
        (do a ← lift result; on_balancer (Balancer.record_success worker.stats.url); pure a.answer)
        (summary_failed worker now)

module _ {F : Type 0} (ops : Floats F) where
  -- The worker, the model and the prompt of the request.
  unfoldable pub summarizer_before :
      String → Option String → ℕ → Action (Gateway F) (OllamaClient F × String × String)
  unfolding change_client start_request
  summarizer_before text model now = do
    worker ← on_balancer (pick_worker ops none now)
    g ← get_state
    change_client worker.handle start_request
    pure (worker, text_or model g.config.default_model, summary_prompt text)

  unfoldable pub summarizer_after : OllamaClient F → F → Reply → ℕ → Action (Gateway F) String
  unfolding settle_summary change_client end_generate generate_result
  summarizer_after worker latency reply now = do
    change_client worker.handle (end_generate ops latency reply)
    settle_summary worker (generate_result ops latency reply worker) now

  -- What the summarizer gives is `summarizer`, and what other tasks do to the contexts meanwhile `during`.
  unfoldable pub maybe_compress_context :
      (ContextStore F → ContextStore F)
      → Option String
      → (String → Result String)
      → ℕ
      → ℕ
      → Stamp F
      → Action (Gateway F) (Unit {0})
  unfolding compress_if_over_budget
  maybe_compress_context during none summarizer threshold_tokens keep_recent stamp g = (g, ok tt)
  maybe_compress_context during (some workflow_id) summarizer threshold_tokens keep_recent stamp g =
      let (contexts, result, _) =
        compress_if_over_budget ops g.contexts during workflow_id summarizer threshold_tokens
          keep_recent stamp in
      (record g { contexts = contexts }, skipped result)
