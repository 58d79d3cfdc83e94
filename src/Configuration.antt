-- ===== src/Configuration.antt =====
-- config/settings.py: the settings that are read from the environment. `getenv` is the environment,
-- `int_of` the integer that a text stands for, where it is one that is not negative, and `strip` the
-- method of str.
pub mod Urls
pub mod Tests
use fleet_llm_inference.Common.{
  ℕ, String, Bool, true, false, Option, none, some, List, [], ◌∷◌, ◌==◌, eqb, if◌then◌else◌, length,
}
use fleet_llm_inference.Common.Split.{split}
use fleet_llm_inference.Common.Raises.{Result, ok, raised, ◌>>=◌}

pub record Configuration : Type 0 where
  pub gateway_host : String
  pub gateway_port : ℕ
  pub api_key : String
  pub worker_urls : List String
  pub default_model : String
  pub max_tokens : ℕ
  pub request_timeout : ℕ
  pub routing_strategy : String
  pub context_budget_default : ℕ
  pub context_selection_policy : String
  pub context_compression_threshold : ℕ
  pub context_compression_keep_recent : ℕ
  pub worker_max_context_tokens : ℕ
  pub standby_worker_urls : List String
  pub autoscale_min_workers : ℕ
  pub autoscale_max_workers : ℕ
  pub autoscale_up_threshold : ℕ
  pub autoscale_down_threshold : ℕ
  pub autoscale_check_interval : ℕ
  pub autoscale_cooldown : ℕ
  pub redis_host : String
  pub redis_port : ℕ
  pub redis_db : ℕ
  pub memory_db_host : String
  pub memory_db_port : ℕ
  pub memory_db_name : String
  pub memory_db_user : String
  pub memory_db_password : String
  pub circuit_breaker_threshold : ℕ
  pub circuit_breaker_timeout : ℕ
  pub queue_consumer_group : String
  pub queue_max_retries : ℕ
  pub queue_pending_min_idle_ms : ℕ
  pub queue_recovery_interval_seconds : ℕ
  pub prometheus_port : ℕ
  pub grafana_port : ℕ

-- `os.getenv(name, default)`
abbrev pub or_env : Option String → String → String
or_env none default = default
or_env (some text) default = text

module _ (strip : String → String) where
  -- `[u.strip() for u in parts if u.strip()]`
  unfoldable pub stripped : List String → List String
  stripped [] = []
  stripped (u ∷ parts) = let rest = stripped parts in if strip u == "" then rest else strip u ∷ rest

  unfoldable pub urls_of : String → List String
  unfolding stripped split
  urls_of raw = stripped (split b',' raw)

module _ (int_of : String → Result ℕ) where
  -- `int(os.getenv(name, default))` for a number as the default
  unfoldable pub int_or : Option String → ℕ → Result ℕ
  int_or none default = ok default
  int_or (some text) default = int_of text

-- `len(urls) or 1`
abbrev pub count_or_one : List String → ℕ
count_or_one [] = 1
count_or_one (url ∷ urls) = length (url ∷ urls)

module _ (getenv : String → Option String) (int_of : String → Result ℕ)
    (strip : String → String) where
  unfoldable pub load : Result Configuration
  unfolding urls_of int_or
  load =
      let worker_urls = urls_of strip (or_env (getenv "WORKER_URLS") "http://localhost:11434") in
      (do
        gateway_port ← int_or int_of (getenv "GATEWAY_PORT") 8000
        max_tokens ← int_or int_of (getenv "MAX_TOKENS") 2048
        request_timeout ← int_or int_of (getenv "REQUEST_TIMEOUT") 120
        context_budget_default ← int_or int_of (getenv "CONTEXT_BUDGET_DEFAULT") 8192
        context_compression_threshold ←
            int_or int_of (getenv "CONTEXT_COMPRESSION_THRESHOLD") context_budget_default
        context_compression_keep_recent ← int_or int_of (getenv "CONTEXT_COMPRESSION_KEEP_RECENT") 4
        worker_max_context_tokens ← int_or int_of (getenv "WORKER_MAX_CONTEXT_TOKENS") 8192
        autoscale_min_workers ←
            int_or int_of (getenv "AUTOSCALE_MIN_WORKERS") (count_or_one worker_urls)
        autoscale_max_workers ← int_or int_of (getenv "AUTOSCALE_MAX_WORKERS") 4
        autoscale_up_threshold ← int_or int_of (getenv "AUTOSCALE_UP_THRESHOLD") 3
        autoscale_down_threshold ← int_or int_of (getenv "AUTOSCALE_DOWN_THRESHOLD") 0
        autoscale_check_interval ← int_or int_of (getenv "AUTOSCALE_CHECK_INTERVAL") 10
        autoscale_cooldown ← int_or int_of (getenv "AUTOSCALE_COOLDOWN") 30
        redis_port ← int_or int_of (getenv "REDIS_PORT") 6379
        redis_db ← int_or int_of (getenv "REDIS_DB") 0
        memory_db_port ← int_or int_of (getenv "MEMORY_DB_PORT") 5432
        circuit_breaker_threshold ← int_or int_of (getenv "CIRCUIT_BREAKER_THRESHOLD") 5
        circuit_breaker_timeout ← int_or int_of (getenv "CIRCUIT_BREAKER_TIMEOUT") 30
        queue_max_retries ← int_or int_of (getenv "QUEUE_MAX_RETRIES") 3
        queue_pending_min_idle_ms ← int_or int_of (getenv "QUEUE_PENDING_MIN_IDLE_MS") 30000
        queue_recovery_interval_seconds ←
            int_or int_of (getenv "QUEUE_RECOVERY_INTERVAL_SECONDS") 15
        prometheus_port ← int_or int_of (getenv "PROMETHEUS_PORT") 9090
        grafana_port ← int_or int_of (getenv "GRAFANA_PORT") 3000
        ok (record {
          gateway_host = or_env (getenv "GATEWAY_HOST") "0.0.0.0";
          gateway_port = gateway_port;
          api_key = or_env (getenv "API_KEY") "dev-key";
          worker_urls = worker_urls;
          default_model = or_env (getenv "DEFAULT_MODEL") "llama3:latest";
          max_tokens = max_tokens;
          request_timeout = request_timeout;
          routing_strategy = or_env (getenv "ROUTING_STRATEGY") "round_robin";
          context_budget_default = context_budget_default;
          context_selection_policy = or_env (getenv "CONTEXT_SELECTION_POLICY") "hybrid";
          context_compression_threshold = context_compression_threshold;
          context_compression_keep_recent = context_compression_keep_recent;
          worker_max_context_tokens = worker_max_context_tokens;
          standby_worker_urls = urls_of strip (or_env (getenv "STANDBY_WORKER_URLS") "");
          autoscale_min_workers = autoscale_min_workers;
          autoscale_max_workers = autoscale_max_workers;
          autoscale_up_threshold = autoscale_up_threshold;
          autoscale_down_threshold = autoscale_down_threshold;
          autoscale_check_interval = autoscale_check_interval;
          autoscale_cooldown = autoscale_cooldown;
          redis_host = or_env (getenv "REDIS_HOST") "localhost";
          redis_port = redis_port;
          redis_db = redis_db;
          memory_db_host = or_env (getenv "MEMORY_DB_HOST") "localhost";
          memory_db_port = memory_db_port;
          memory_db_name = or_env (getenv "MEMORY_DB_NAME") "fleet";
          memory_db_user = or_env (getenv "MEMORY_DB_USER") "fleet";
          memory_db_password = or_env (getenv "MEMORY_DB_PASSWORD") "";
          circuit_breaker_threshold = circuit_breaker_threshold;
          circuit_breaker_timeout = circuit_breaker_timeout;
          queue_consumer_group = or_env (getenv "QUEUE_CONSUMER_GROUP") "fleet-workers";
          queue_max_retries = queue_max_retries;
          queue_pending_min_idle_ms = queue_pending_min_idle_ms;
          queue_recovery_interval_seconds = queue_recovery_interval_seconds;
          prometheus_port = prometheus_port;
          grafana_port = grafana_port;
        }))
