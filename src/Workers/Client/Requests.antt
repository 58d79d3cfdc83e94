-- ===== src/Workers/Client/Requests.antt =====
-- The requests of workers/ollama_client.py to a worker, cut at the await of httpx: what comes back is
-- an argument. The counters and gauges of gateway/metrics.py are told by their changes.
use fleet_llm_inference.Common.{
  ℕ, ◌+◌, ◌-◌, String, Bool, false, Option, none, some, eqb, List, [], ◌∷◌, ◌++◌,
}
use fleet_llm_inference.Common.Floats.{Floats}
use fleet_llm_inference.Common.Raises.{Result, ok, raised, runtime_error}
use fleet_llm_inference.Dict
use fleet_llm_inference.Dict.{Dict}
use fleet_llm_inference.Workers.Client.{OllamaClient}

-- A field of a JSON object.
pub data Field (A : Type 0) : Type 0 where
  missing null : Field A
  given : A → Field A

-- The parts of a response's body that are read.
pub record Body : Type 0 where
  pub message : Field (Dict String)
  pub model : Option String
  pub prompt_eval_count : Option ℕ
  pub eval_count : Option ℕ

-- What comes back for a request: an exception, an error status or a body that is no JSON; JSON that is
-- no object; or an object.
pub data Reply : Type 0 where
  lost malformed : Reply
  answered : Body → Reply

-- What `generate` and `chat` return; `answer` is the field "response" of the one and "message" of the
-- other.
pub record Completion (F A : Type 0) : Type 0 where
  pub answer : A
  pub model : Option String
  pub worker_url : String
  pub latency_ms : F
  pub prompt_tokens : ℕ
  pub completion_tokens : ℕ

-- `result.get(key, default)`
abbrev pub or_default : {A : Type 0} → A → Option A → A
or_default a none = a
or_default a (some b) = b

-- `result.get("message", {})`
abbrev pub message_of : Field (Dict String) → Option (Dict String)
message_of missing = some Dict.empty
message_of null = none
message_of (given message) = some message

-- `generate` calls a method of the message, which raises where it is null.
abbrev pub for_generate_with : Body → Option (Dict String) → Reply
for_generate_with body none = malformed
for_generate_with body (some message) = answered body

abbrev pub for_generate : Reply → Reply
for_generate lost = lost
for_generate malformed = malformed
for_generate (answered body) = for_generate_with body (message_of body.message)

-- Changes of the metrics of a worker.
pub data WorkerMetric (F : Type 0) : Type 0 where
  active_up active_down success failure : WorkerMetric F
  latency_seen : F → WorkerMetric F
  input_tokens output_tokens : ℕ → WorkerMetric F

module _ {F : Type 0} where
  -- `status` is that of the response to GET /api/tags, `none` for an exception.
  unfoldable pub health_check : Option ℕ → OllamaClient F → OllamaClient F × Bool
  health_check none w = (record w { stats = record w.stats { is_healthy = false } }, false)
  health_check (some status) w =
      (record w { stats = record w.stats { is_healthy = eqb status 200 } }, eqb status 200)

  -- Up to the await.
  unfoldable pub start_request : OllamaClient F → OllamaClient F
  start_request w = record w {
    stats = record w.stats { active_requests = w.stats.active_requests + 1 };
  }

module _ {F : Type 0} (ops : Floats F) where
  abbrev pub answered_stats : F → ℕ → OllamaClient F → OllamaClient F
  answered_stats latency failures w = record w {
    stats = record w.stats {
      total_requests = w.stats.total_requests + 1;
      total_latency = ops.add w.stats.total_latency latency;
      failures = failures;
      active_requests = w.stats.active_requests - 1;
    };
  }

  -- The statistics after a reply: `active_requests` is at least 1 there. JSON that is no object raises
  -- after it was counted as a success.
  unfoldable pub end_request : F → Reply → OllamaClient F → OllamaClient F
  end_request latency lost w = record w {
    stats = record w.stats {
      failures = w.stats.failures + 1;
      active_requests = w.stats.active_requests - 1;
    };
  }
  end_request latency malformed w = answered_stats latency 1 w
  end_request latency (answered body) w = answered_stats latency 0 w

  unfoldable pub end_generate : F → Reply → OllamaClient F → OllamaClient F
  unfolding end_request
  end_generate latency reply w = end_request latency (for_generate reply) w

  abbrev pub completion : {A : Type 0} → A → F → Body → OllamaClient F → Completion F A
  completion answer latency body w = record {
    answer = answer;
    model = body.model;
    worker_url = w.base_url;
    latency_ms = ops.round (ops.mul latency (ops.of_int 1000)) 2;
    prompt_tokens = or_default 0 body.prompt_eval_count;
    completion_tokens = or_default 0 body.eval_count;
  }

  abbrev pub generated :
      F → Body → OllamaClient F → Option (Dict String) → Result (Completion F String)
  generated latency body w none = raised runtime_error
  generated latency body w (some message) =
      ok (completion (or_default "" (Dict.get message "content")) latency body w)

  unfoldable pub generate_result : F → Reply → OllamaClient F → Result (Completion F String)
  generate_result latency lost w = raised runtime_error
  generate_result latency malformed w = raised runtime_error
  generate_result latency (answered body) w = generated latency body w (message_of body.message)

  -- The message is `none` where the body has a null.
  unfoldable pub chat_result :
      F → Reply → OllamaClient F → Result (Completion F (Option (Dict String)))
  chat_result latency lost w = raised runtime_error
  chat_result latency malformed w = raised runtime_error
  chat_result latency (answered body) w = ok (completion (message_of body.message) latency body w)

  -- The metrics after the reply; those of a request begin with `active_up`.
  abbrev pub read_metrics : F → Body → List (WorkerMetric F)
  read_metrics latency body =
      latency_seen latency
      ∷ success
      ∷ input_tokens (or_default 0 body.prompt_eval_count)
      ∷ output_tokens (or_default 0 body.eval_count)
      ∷ []

  unfoldable pub chat_metrics : F → Reply → List (WorkerMetric F)
  chat_metrics latency lost = failure ∷ active_down ∷ []
  chat_metrics latency malformed = latency_seen latency ∷ success ∷ failure ∷ active_down ∷ []
  chat_metrics latency (answered body) = read_metrics latency body ++ active_down ∷ []

  abbrev pub generate_metrics_with : F → Body → Option (Dict String) → List (WorkerMetric F)
  generate_metrics_with latency body none = read_metrics latency body ++ failure ∷ active_down ∷ []
  generate_metrics_with latency body (some message) = read_metrics latency body ++ active_down ∷ []

  unfoldable pub generate_metrics : F → Reply → List (WorkerMetric F)
  generate_metrics latency lost = failure ∷ active_down ∷ []
  generate_metrics latency malformed = latency_seen latency ∷ success ∷ failure ∷ active_down ∷ []
  generate_metrics latency (answered body) =
      generate_metrics_with latency body (message_of body.message)
