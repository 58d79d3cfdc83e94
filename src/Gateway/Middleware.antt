-- ===== src/Gateway/Middleware.antt =====
-- `metrics_middleware` of gateway/middleware.py, cut where it awaits the rest of the application. The
-- metrics are ACTIVE_REQUESTS, REQUEST_COUNT and REQUEST_LATENCY.
use fleet_llm_inference.Common.{ℕ, ◌+◌, ◌-◌, String, List, [], ◌∷◌, length, ◌≡◌, refl, arith}
use fleet_llm_inference.Common.Raises.{Exception, Result, ok, raised}

pub record HttpRequest : Type 0 where
  pub method : String
  pub path : String

-- The newest count and the newest latency come first.
pub record Metrics (F : Type 0) : Type 0 where
  pub active_requests : ℕ
  pub request_count : List (String × String × ℕ)
  pub request_latency : List (String × F)

module _ {F : Type 0} where
  -- Up to `await call_next(request)`.
  unfoldable pub middleware_before : Metrics F → Metrics F
  middleware_before m = record m { active_requests = m.active_requests + 1 }

  -- The rest, with the status of the response or the exception that came out of the await. The gauge
  -- is at least 1 there.
  unfoldable pub middleware_after : HttpRequest → F → Result ℕ → Metrics F → Metrics F
  middleware_after request latency (raised e) m = m
  middleware_after request latency (ok status_code) m = record m {
    active_requests = m.active_requests - 1;
    request_count = (request.method, request.path, status_code) ∷ m.request_count;
    request_latency = (request.path, latency) ∷ m.request_latency;
  }

  abbrev pub new_metrics : Metrics F
  new_metrics = record { active_requests = 0; request_count = []; request_latency = [] }

  -- What comes of requests in any order: the metrics, and how many requests wait, were answered and
  -- have raised.
  pub data Served : Metrics F → ℕ → ℕ → ℕ → Type 0 where
    idle : Served new_metrics 0 0 0
    arrives :
        {m : Metrics F} {waiting answered failed : ℕ}
        → Served m waiting answered failed
        → Served (middleware_before m) (waiting + 1) answered failed
    answers :
        {m : Metrics F} {waiting answered failed : ℕ} (request : HttpRequest) (latency : F)
        (status_code : ℕ)
        → Served m (waiting + 1) answered failed
        → Served (middleware_after request latency (ok status_code) m) waiting (answered + 1) failed
    raises :
        {m : Metrics F} {waiting answered failed : ℕ} (request : HttpRequest) (latency : F)
        (e : Exception)
        → Served m (waiting + 1) answered failed
        → Served (middleware_after request latency (raised e) m) waiting answered (failed + 1)

  -- After any requests in any order, the gauge of the active requests is too high by the number of those
  -- that have raised: it counts them with those that wait. Every answered request was counted once.
  pub Served-gauge :
      {m : Metrics F} {waiting answered failed : ℕ}
      → Served m waiting answered failed
      → (m.active_requests ≡ waiting + failed)
        × (length m.request_count ≡ answered)
        × (length m.request_latency ≡ answered)
  unfolding middleware_before middleware_after
  Served-gauge idle = (refl, refl, refl)
  Served-gauge (arrives s) = let (a, b, c) = Served-gauge s in (omega (arith, a), b, c)
  Served-gauge (answers request latency status_code s) =
      let (a, b, c) = Served-gauge s in (omega (arith, a), omega (arith, b), omega (arith, c))
  Served-gauge (raises request latency e s) =
      let (a, b, c) = Served-gauge s in (omega (arith, a), b, c)
