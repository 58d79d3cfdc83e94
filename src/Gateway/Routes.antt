-- ===== src/Gateway/Routes.antt =====
-- The routes /generate and /chat of gateway/routes.py, before and after they await the worker.
use fleet_llm_inference.Common.{ℕ, String, Option, map, join}
use fleet_llm_inference.Common.Floats.{Floats}
use fleet_llm_inference.Common.Actions.{Action, pure, get_state, ◌>>=◌, ◌>>◌}
use fleet_llm_inference.Dict.{Dict}
use fleet_llm_inference.Context.Models.{Stamp}
use fleet_llm_inference.Workers.Client.{OllamaClient}
use fleet_llm_inference.Workers.Client.Requests.{
  Reply, Completion, start_request, end_request, end_generate, generate_result, chat_result,
}
use fleet_llm_inference.Gateway.{
  Gateway, GenerateRequest, Message, ChatRequest, text_or, verify_api_key, resolve_agent_metadata,
  change_client, admit, settle,
}

module _ {F : Type 0} (ops : Floats F) where
  -- A request that waits for its worker.
  unfoldable pub generate_before :
      GenerateRequest
      → Option String
      → String
      → ℕ
      → Stamp F
      → Action (Gateway F) (Dict String × String × OllamaClient F)
  unfolding verify_api_key resolve_agent_metadata admit change_client start_request
  generate_before req x_api_key uuid now stamp = do
    verify_api_key x_api_key
    meta ← resolve_agent_metadata req.agent "/generate" uuid
    g ← get_state
    worker ← admit ops meta "/generate" req.prompt now stamp
    change_client worker.handle start_request
    pure (meta, text_or req.model g.config.default_model, worker)

  -- The rest of the route, when the worker has answered after `latency`.
  unfoldable pub generate_after :
      Dict String
      → OllamaClient F
      → F
      → Reply
      → ℕ
      → Action (Gateway F) (Dict String × Completion F String)
  unfolding settle change_client end_generate generate_result
  generate_after meta worker latency reply now = do
    change_client worker.handle (end_generate ops latency reply)
    settle ops meta "/generate" worker (generate_result ops latency reply worker) now

  unfoldable pub chat_before :
      ChatRequest
      → Option String
      → String
      → ℕ
      → Stamp F
      → Action (Gateway F) (Dict String × String × OllamaClient F)
  unfolding verify_api_key resolve_agent_metadata admit change_client start_request
  chat_before req x_api_key uuid now stamp = do
    verify_api_key x_api_key
    meta ← resolve_agent_metadata req.agent "/chat" uuid
    g ← get_state
    worker ←
        admit ops meta "/chat" (join "\n" (map (λ (m : Message). m.content) req.messages)) now stamp
    change_client worker.handle start_request
    pure (meta, text_or req.model g.config.default_model, worker)

  unfoldable pub chat_after :
      Dict String
      → OllamaClient F
      → F
      → Reply
      → ℕ
      → Action (Gateway F) (Dict String × Completion F (Option (Dict String)))
  unfolding settle change_client end_request chat_result
  chat_after meta worker latency reply now = do
    change_client worker.handle (end_request ops latency reply)
    settle ops meta "/chat" worker (chat_result ops latency reply worker) now
