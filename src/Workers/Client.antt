-- ===== src/Workers/Client.antt =====
-- workers/ollama_client.py. Objects are told apart by `handle`, the order of their creation.
pub mod Requests
use Prim.Native.String.{[], ◌∷◌}
use Prim.Native.Char.{code}
use fleet_llm_inference.Common.{
  ℕ, String, Bool, true, Option, none, some, ◌&&◌, ◌==◌, eqb, if◌then◌else◌,
}
use fleet_llm_inference.Common.Floats.{Floats}

pub record WorkerStats (F : Type 0) : Type 0 where
  pub url : String
  pub active_requests : ℕ
  pub total_requests : ℕ
  pub total_latency : F
  pub failures : ℕ
  pub is_healthy : Bool

pub record OllamaClient (F : Type 0) : Type 0 where
  pub handle : ℕ
  pub base_url : String
  pub timeout : ℕ
  pub max_context_tokens : ℕ
  pub stats : WorkerStats F

-- `text.rstrip("/")`
unfoldable pub rstrip_slash : String → String
rstrip_slash [] = ""
rstrip_slash (c ∷ s) =
    let rest = rstrip_slash s in if eqb (code c) b'/' && (rest == "") then "" else c ∷ rest

abbrev pub or_setting : Option ℕ → ℕ → ℕ
or_setting none setting = setting
or_setting (some n) setting = n

module _ {F : Type 0} (ops : Floats F) where
  unfoldable pub avg_latency : WorkerStats F → F
  avg_latency s =
      if eqb s.total_requests 0
      then ops.literal 0 1
      else ops.div s.total_latency (ops.of_int s.total_requests)

  unfoldable pub new_client : ℕ → String → ℕ → Option ℕ → ℕ → OllamaClient F
  unfolding rstrip_slash
  new_client handle base_url timeout max_context_tokens default_max = record {
    handle = handle;
    base_url = rstrip_slash base_url;
    timeout = timeout;
    max_context_tokens = or_setting max_context_tokens default_max;
    stats = record {
      url = base_url;
      active_requests = 0;
      total_requests = 0;
      total_latency = ops.literal 0 1;
      failures = 0;
      is_healthy = true;
    };
  }
