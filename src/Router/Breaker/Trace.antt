-- ===== src/Router/Breaker/Trace.antt =====
-- A circuit breaker over any sequence of calls.
use fleet_llm_inference.Common.{
  ℕ, ◌+◌, ◌≤◌, ◌<◌, String, ◌≡◌, ◌↔◌, false, List, [], ◌∷◌, map, arith, leb, ltb, if◌then◌else◌,
}
use fleet_llm_inference.Router.Breaker.{
  closed, half_open, CircuitBreaker, new_breaker, is_open, record_success, record_failure,
}

pub data Event : Type 0 where
  queries : ℕ → Event
  succeeds : Event
  fails : ℕ → Event

unfoldable pub step : CircuitBreaker → Event → CircuitBreaker
unfolding is_open record_success record_failure
step b (queries now) = (is_open b now).0
step b succeeds = record_success b
step b (fails now) = record_failure b now

unfoldable pub run : CircuitBreaker → List Event → CircuitBreaker
unfolding step
run b [] = b
run b (e ∷ events) = run (step b e) events

-- The failures since the last success.
unfoldable pub streak : ℕ → List Event → ℕ
streak n [] = n
streak n (queries now ∷ events) = streak n events
streak n (succeeds ∷ events) = streak 0 events
streak n (fails now ∷ events) = streak (n + 1) events

-- The time of the last failure.
unfoldable pub last_failure : ℕ → List Event → ℕ
last_failure t [] = t
last_failure t (queries now ∷ events) = last_failure t events
last_failure t (succeeds ∷ events) = last_failure t events
last_failure t (fails now ∷ events) = last_failure now events

-- The clock does not run backwards: `c` is the latest reading so far.
abbrev pub InOrder : ℕ → List Event → Type 0
InOrder c [] = Unit
InOrder c (queries now ∷ events) = (c ≤ now) × InOrder now events
InOrder c (succeeds ∷ events) = InOrder c events
InOrder c (fails now ∷ events) = (c ≤ now) × InOrder now events

unfoldable pub latest : ℕ → List Event → ℕ
latest c [] = c
latest c (queries now ∷ events) = latest now events
latest c (succeeds ∷ events) = latest c events
latest c (fails now ∷ events) = latest now events

-- The counters tell the history, the breaker is closed exactly below its threshold, and it tests
-- only when its pause is over. `n` failures since the last success, the last failure at `t`.
pub record Tells (b : CircuitBreaker) (threshold timeout n t c : ℕ) : Type 0 where
  pub limit : b.threshold ≡ threshold
  pub pause : b.timeout ≡ timeout
  pub counted : b.failure_count ≡ n
  pub timed : b.last_failure_time ≡ t
  pub tripped : (b.state ≡ closed) ↔ (n < threshold)
  pub rested : b.state ≡ half_open → t + timeout ≤ c

run-Tells :
    (b : CircuitBreaker) (threshold timeout n t c : ℕ) (events : List Event)
    → 0 < threshold
    → InOrder c events
    → Tells b threshold timeout n t c
    → Tells
        (run b events)
        threshold
        timeout
        (streak n events)
        (last_failure t events)
        (latest c events)
unfolding run streak last_failure latest
run-Tells b threshold timeout n t c [] p o h = h
run-Tells b threshold timeout n t c (queries now ∷ events) p o h =
    run-Tells (step b (queries now)) threshold timeout n t now events p o.1 (ground arith)
run-Tells b threshold timeout n t c (succeeds ∷ events) p o h =
    run-Tells (step b succeeds) threshold timeout 0 t c events p o (ground arith)
run-Tells b threshold timeout n t c (fails now ∷ events) p o h =
    run-Tells (step b (fails now)) threshold timeout (n + 1) now now events p o.1 (ground arith)

new_breaker-Tells :
    (url : String) (threshold timeout : ℕ)
    → 0 < threshold
    → Tells (new_breaker url threshold timeout) threshold timeout 0 0 0
unfolding new_breaker
new_breaker-Tells url threshold timeout p = ground arith

blocks :
    (b : CircuitBreaker) (threshold timeout n t c now : ℕ)
    → Tells b threshold timeout n t c
    → c ≤ now
    → (is_open b now).1 ≡ (if leb threshold n then ltb now (t + timeout) else false)
unfolding is_open
blocks b threshold timeout n t c now h o = ground arith

-- After any calls, on a clock that does not run backwards, a new breaker with a threshold that is
-- not zero blocks a worker exactly while at least `threshold` failures have come since the last success and less than `timeout` has
-- passed since the last failure.
pub is_open-run :
    (url : String) (threshold timeout now : ℕ) (events : List Event)
    → 0 < threshold
    → InOrder 0 events
    → latest 0 events ≤ now
    → (is_open (run (new_breaker url threshold timeout) events) now).1 ≡ (
        if leb threshold (streak 0 events)
        then ltb now (last_failure 0 events + timeout)
        else false)
is_open-run url threshold timeout now events p o q =
    blocks (run (new_breaker url threshold timeout) events) threshold timeout (streak 0 events)
      (last_failure 0 events) (latest 0 events) now
      (run-Tells (new_breaker url threshold timeout) threshold timeout 0 0 0 events p o
        (new_breaker-Tells url threshold timeout p))
      q

-- A half-open breaker does not stop at one trial: whatever the number of queries after the pause,
-- a further one is not blocked before a result comes in.
pub half_open_unlimited :
    (b : CircuitBreaker) (times : List ℕ) (now : ℕ)
    → b.state ≡ half_open
    → (is_open (run b (map queries times)) now).1 ≡ false
unfolding run
half_open_unlimited b [] now h = ground arith
half_open_unlimited b (t ∷ times) now h =
    half_open_unlimited (step b (queries t)) times now (ground arith)
