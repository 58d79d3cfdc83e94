-- ===== src/Router/Breaker.antt =====
-- router/circuit_breaker.py. Times are whole numbers of ticks of the monotonic clock.
pub mod Trace
use fleet_llm_inference.Common.{ℕ, ◌+◌, ◌≤◌, String, Bool, true, false, leb, if◌then◌else◌}

pub data CircuitState : Type 0 where
  closed open_circuit half_open : CircuitState

pub record CircuitBreaker : Type 0 where
  pub worker_url : String
  pub state : CircuitState
  pub failure_count : ℕ
  pub last_failure_time : ℕ
  pub threshold : ℕ
  pub timeout : ℕ

unfoldable pub new_breaker : String → ℕ → ℕ → CircuitBreaker
new_breaker worker_url threshold timeout = record {
  worker_url = worker_url;
  state = closed;
  failure_count = 0;
  last_failure_time = 0;
  threshold = threshold;
  timeout = timeout;
}

-- `now - last_failure_time >= timeout`, with the subtraction moved to the other side
unfoldable pub is_open : CircuitBreaker → ℕ → CircuitBreaker × Bool
is_open b now = elim b.state [
  | open_circuit ↦
      if leb (b.last_failure_time + b.timeout) now
      then (record b { state = half_open }, false)
      else (b, true)
  | _ ↦ (b, false)
]

unfoldable pub record_success : CircuitBreaker → CircuitBreaker
record_success b = record b { state = closed; failure_count = 0 }

unfoldable pub record_failure : CircuitBreaker → ℕ → CircuitBreaker
record_failure b now =
    let failure_count = b.failure_count + 1 in
    record b {
      failure_count = failure_count;
      last_failure_time = now;
      state = if leb b.threshold failure_count then open_circuit else b.state;
    }
