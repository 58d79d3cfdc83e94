-- ===== src/Router/Balancer.antt =====
-- router/load_balancer.py. `now` is the reading of the clock in one call, `Settings` the part of
-- config/settings.py that is read, `rejections` the counter CONTEXT_CAPACITY_REJECTIONS.
pub mod Eligible
pub mod Pick
pub mod Strategy
pub mod Registry
pub mod Health
pub mod Known
use fleet_llm_inference.Common.{
  ℕ, ◌+◌, ◌%◌, ◌≤◌, ◌<◌, String, Bool, true, false, not, Option, none, some, List, [], ◌∷◌, ◌++◌,
  map, ◌==◌, leb, ltb, if◌then◌else◌, length, keep, any, get_elem?, is_some,
}
use fleet_llm_inference.Common.Floats.{Floats}
use fleet_llm_inference.Common.Raises.{
  Exception, Result, ok, raised, runtime_error, no_capacity, key_error, or_key_error,
}
use fleet_llm_inference.Common.Actions.{Action, pure, raise, ◌>>=◌, ◌>>◌, get_state, set_state}
use fleet_llm_inference.Dict
use fleet_llm_inference.Dict.{Dict}
use fleet_llm_inference.Workers.Client.{OllamaClient, WorkerStats, new_client, avg_latency}
use fleet_llm_inference.Router.Breaker
use fleet_llm_inference.Router.Breaker.{CircuitBreaker, new_breaker, is_open}

pub record Settings : Type 0 where
  pub request_timeout : ℕ
  pub worker_max_context_tokens : ℕ
  pub circuit_breaker_threshold : ℕ
  pub circuit_breaker_timeout : ℕ
  pub routing_strategy : String

pub record LoadBalancer (F : Type 0) : Type 0 where
  pub settings : Settings
  pub workers : List (OllamaClient F)
  pub breakers : Dict CircuitBreaker
  pub rr_index : ℕ
  pub next_handle : ℕ
  pub rejections : ℕ

abbrev pub breaker_for : Settings → String → CircuitBreaker
breaker_for s url = new_breaker url s.circuit_breaker_threshold s.circuit_breaker_timeout

module _ {F : Type 0} where
  -- `w.stats.is_healthy and not self.breakers[w.stats.url].is_open()`: a breaker whose pause is over
  -- turns half-open here.
  unfoldable pub is_passing : OllamaClient F → ℕ → Action (Dict CircuitBreaker) Bool
  unfolding is_open
  is_passing w now d =
      if w.stats.is_healthy
      then elim (Dict.get d w.stats.url) [
        | none ↦ (d, raised key_error)
        | some b ↦ (Dict.put d w.stats.url (is_open b now).0, ok (not (is_open b now).1))
      ]
      else (d, ok false)

  unfoldable pub passing_workers :
      List (OllamaClient F) → ℕ → Action (Dict CircuitBreaker) (List (OllamaClient F))
  passing_workers [] now = pure []
  passing_workers (w ∷ ws) now = do
    passes ← is_passing w now
    rest ← passing_workers ws now
    pure (if passes then w ∷ rest else rest)

  abbrev pub with_capacity : Option ℕ → List (OllamaClient F) → List (OllamaClient F)
  with_capacity none healthy = healthy
  with_capacity (some context_tokens) healthy =
      keep (λ w. leb context_tokens w.max_context_tokens) healthy

  -- A call on the breakers of a load balancer.
  abbrev pub on_breakers : {A : Type 0} → Action (Dict CircuitBreaker) A → Action (LoadBalancer F) A
  on_breakers m lb = (record lb { breakers = (m lb.breakers).0 }, (m lb.breakers).1)

  unfoldable pub available_workers : Option ℕ → ℕ → Action (LoadBalancer F) (List (OllamaClient F))
  available_workers context_tokens now lb =
      (do
        healthy ← on_breakers (passing_workers lb.workers now)
        pure (with_capacity context_tokens healthy))
        lb

  -- `min(w ∷ ws, key=…)` for keys that are compared by `less`
  unfoldable pub min_by :
      (OllamaClient F → OllamaClient F → Bool)
      → OllamaClient F
      → List (OllamaClient F)
      → OllamaClient F
  min_by less w [] = w
  min_by less w (v ∷ ws) = min_by less (if less v w then v else w) ws

  -- `available[index]`
  abbrev pub nth_or : OllamaClient F → List (OllamaClient F) → ℕ → OllamaClient F
  nth_or w ws i = elim (get_elem? (w ∷ ws) i) [ none ↦ w | some v ↦ v ]

  abbrev pub idler : OllamaClient F → OllamaClient F → Bool
  idler v w = ltb v.stats.active_requests w.stats.active_requests

  unfoldable pub has_worker : LoadBalancer F → String → Bool
  has_worker lb url = any (λ w. w.stats.url == url) lb.workers

  unfoldable pub remove_worker : LoadBalancer F → String → LoadBalancer F × Bool
  remove_worker lb url =
      let workers = keep (λ w. not (w.stats.url == url)) lb.workers in
      (
        record lb { workers = workers; breakers = Dict.pop lb.breakers url },
        ltb (length workers) (length lb.workers),
      )

  -- `self.breakers[worker_url]` is read, changed and raises KeyError where it is not there.
  unfoldable pub on_breaker :
      String → (CircuitBreaker → CircuitBreaker) → Action (LoadBalancer F) (Unit {0})
  on_breaker url f lb = elim (Dict.get lb.breakers url) [
    | none ↦ (lb, raised key_error)
    | some b ↦ (record lb { breakers = Dict.put lb.breakers url (f b) }, ok tt)
  ]

  unfoldable pub record_success : String → Action (LoadBalancer F) (Unit {0})
  unfolding on_breaker
  record_success url = on_breaker url Breaker.record_success

  unfoldable pub record_failure : String → ℕ → Action (LoadBalancer F) (Unit {0})
  unfolding on_breaker
  record_failure url now = on_breaker url (λ b. Breaker.record_failure b now)

module _ {F : Type 0} (ops : Floats F) where
  unfoldable pub add_client : LoadBalancer F → String → LoadBalancer F
  unfolding new_client
  add_client lb url = record lb {
    workers =
        lb.workers
        ++ new_client ops lb.next_handle url lb.settings.request_timeout none
            lb.settings.worker_max_context_tokens
          ∷ [];
    breakers = Dict.put lb.breakers url (breaker_for lb.settings url);
    next_handle = lb.next_handle + 1;
  }

  unfoldable pub add_worker : LoadBalancer F → String → LoadBalancer F × Bool
  unfolding has_worker add_client
  add_worker lb url = if has_worker lb url then (lb, false) else (add_client lb url, true)

  -- The constructor: a client and a breaker for each URL.
  unfoldable pub add_all : LoadBalancer F → List String → LoadBalancer F
  unfolding add_client
  add_all lb [] = lb
  add_all lb (url ∷ urls) = add_all (add_client lb url) urls

  unfoldable pub new_balancer : Settings → List String → LoadBalancer F
  unfolding add_all
  new_balancer settings worker_urls =
      add_all
        (record {
          settings = settings;
          workers = [];
          breakers = Dict.empty;
          rr_index = 0;
          next_handle = 0;
          rejections = 0;
        })
        worker_urls

  abbrev pub faster : OllamaClient F → OllamaClient F → Bool
  faster v w = ops.less (avg_latency ops v.stats) (avg_latency ops w.stats)

  -- The routing strategies, on the available workers `w ∷ ws`.
  unfoldable pub choose :
      OllamaClient F → List (OllamaClient F) → Action (LoadBalancer F) (OllamaClient F)
  unfolding min_by
  choose w ws lb =
      if lb.settings.routing_strategy == "round_robin"
      then (
        record lb { rr_index = lb.rr_index + 1 },
        ok (nth_or w ws (lb.rr_index % length (w ∷ ws))),
      )
      else if lb.settings.routing_strategy == "least_latency"
      then (lb, ok (min_by faster w ws))
      else if lb.settings.routing_strategy == "queue_depth"
      then (lb, ok (min_by idler w ws))
      else (lb, ok w)

  abbrev pub refuse_with : List (OllamaClient F) → Action (LoadBalancer F) (OllamaClient F)
  refuse_with [] lb = (lb, raised runtime_error)
  refuse_with (w ∷ ws) lb = (record lb { rejections = lb.rejections + 1 }, raised no_capacity)

  -- No worker is available: `self._available_workers()` is asked once more, without the capacity.
  unfoldable pub refuse : Option ℕ → ℕ → Action (LoadBalancer F) (OllamaClient F)
  refuse none now = raise runtime_error
  refuse (some context_tokens) now = do others ← available_workers none now; refuse_with others

  abbrev pub choose_from :
      Option ℕ → ℕ → List (OllamaClient F) → Action (LoadBalancer F) (OllamaClient F)
  choose_from context_tokens now [] = refuse context_tokens now
  choose_from context_tokens now (w ∷ ws) = choose w ws

  unfoldable pub pick_worker : Option ℕ → ℕ → Action (LoadBalancer F) (OllamaClient F)
  pick_worker context_tokens now = do
    available ← available_workers context_tokens now
    choose_from context_tokens now available
