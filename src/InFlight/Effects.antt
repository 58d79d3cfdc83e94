-- ===== src/InFlight/Effects.antt =====
-- The second halves of the requests, as changes of the workers.
use fleet_llm_inference.Common.{
  ℕ, ◌-◌, ◌≡◌, refl, ◌∙◌, String, Bool, true, false, Option, none, some, map, arith, if◌then◌else◌,
}
use fleet_llm_inference.Common.Floats.{Floats}
use fleet_llm_inference.Common.Raises.{Exception, Result, is_runtime_error}
use fleet_llm_inference.Common.Actions.{Action, raise, lift, catch, ◌>>=◌, ◌>>◌}
use fleet_llm_inference.Common.Actions.Post.{Returns-anything, and_then-Post, handled-Post}
use fleet_llm_inference.Dict
use fleet_llm_inference.Dict.{Dict}
use fleet_llm_inference.Workers.Client.{OllamaClient}
use fleet_llm_inference.Workers.Client.Requests.{
  Reply, Completion, end_request, generate_result, chat_result,
}
use fleet_llm_inference.Workers.Pool.{settle_job, finish_generate, finish_chat, job_failed}
use fleet_llm_inference.Router.Balancer
use fleet_llm_inference.Router.Balancer.{LoadBalancer, pick_worker}
use fleet_llm_inference.Router.Balancer.Known.{SamePool, on_breaker-SamePool}
use fleet_llm_inference.Gateway.{
  Gateway, change_where, change_client, verify_api_key, settle, failed, on_balancer,
  record_workflow_failure, schedule_compression, count_failure,
}
use fleet_llm_inference.Gateway.Routes.{generate_after, chat_after}
use fleet_llm_inference.Gateway.Compression.{summarizer_after, summary_failed, settle_summary}

module _ {F : Type 0} where
  abbrev pub SameWorkers : Gateway F → Gateway F → Type 0
  SameWorkers g g' = SamePool g.balancer g'.balancer

  -- An action that changes no worker object.
  abbrev pub Keeps : {A : Type 0} → Action (Gateway F) A → Type 0
  Keeps m = (g : Gateway F) → SameWorkers g (m g).0

  module _ {A B : Type 0} where
    pub Keeps-bind :
        (m : Action (Gateway F) A) (f : A → Action (Gateway F) B)
        → Keeps m
        → ((a : A) → Keeps (f a))
        → Keeps (m >>= f)
    Keeps-bind m f k l g =
        and_then-Post {R = SameWorkers g} (λ p. SameWorkers g p.0) (m g) f (k g, Returns-anything _)
          (λ a s r _. (((l a s).0 ∙ r.0, (l a s).1 ∙ r.1))) (λ _ _ r. r)

  module _ {A : Type 0} where
    pub Keeps-if :
        (b : Bool) (m n : Action (Gateway F) A) → Keeps m → Keeps n → Keeps (if b then m else n)
    Keeps-if true m n k l = k
    Keeps-if false m n k l = l

    Keeps-catch :
        (m : Action (Gateway F) A) (handler : Exception → Action (Gateway F) A)
        → Keeps m
        → ((e : Exception) → Keeps (handler e))
        → Keeps (catch m handler)
    Keeps-catch m handler k l g =
        handled-Post {R = SameWorkers g} (λ p. SameWorkers g p.0) (m g) handler
          (k g, Returns-anything _) (λ _ _ r _. r) (λ e s r. ((l e s).0 ∙ r.0, (l e s).1 ∙ r.1))

  pub record_workflow_failure-Keeps :
      (meta : Dict String) (endpoint : String) → Keeps (record_workflow_failure meta endpoint)
  unfolding record_workflow_failure
  record_workflow_failure-Keeps meta endpoint g = counted (Dict.get meta "workflow_id")
    where
      counted : (w : Option String) → SameWorkers g (count_failure w endpoint g)
      counted none = (refl, refl)
      counted (some w) = (refl, refl)

  pub verify_api_key-Keeps : (key : Option String) → Keeps (verify_api_key key)
  unfolding verify_api_key
  verify_api_key-Keeps none g = (refl, refl)
  verify_api_key-Keeps (some key) g = (ground arith, ground arith)

  record_success-Keeps :
      (worker : OllamaClient F)
      → Keeps (on_balancer (Balancer.record_success {F = F} worker.stats.url))
  unfolding Balancer.record_success
  record_success-Keeps worker g = on_breaker-SamePool worker.stats.url _ g.balancer

  record_failure-Keeps :
      (worker : OllamaClient F) (now : ℕ)
      → Keeps (on_balancer (Balancer.record_failure {F = F} worker.stats.url now))
  unfolding Balancer.record_failure
  record_failure-Keeps worker now g = on_breaker-SamePool worker.stats.url _ g.balancer

  failed-Keeps :
      (A : Type 0) (meta : Dict String) (endpoint : String) (worker : OllamaClient F) (now : ℕ)
      (e : Exception)
      → Keeps (failed {A = A} meta endpoint worker now e)
  unfolding failed
  failed-Keeps A meta endpoint worker now e =
      Keeps-if (is_runtime_error e) _ (raise e)
        (Keeps-bind
          (on_balancer (Balancer.record_failure worker.stats.url now)
            >> record_workflow_failure meta endpoint)
          _
          (Keeps-bind (on_balancer (Balancer.record_failure worker.stats.url now)) _
            (record_failure-Keeps worker now) (λ _. record_workflow_failure-Keeps meta endpoint))
          (λ _ g. (refl, refl)))
        (λ g. (refl, refl))

  settle-Keeps :
      {A : Type 0} (ops : Floats F) (meta : Dict String) (endpoint : String)
      (worker : OllamaClient F) (result : Result A) (now : ℕ)
      → Keeps (settle ops meta endpoint worker result now)
  unfolding settle schedule_compression
  settle-Keeps ops meta endpoint worker result now =
      Keeps-catch _ (failed meta endpoint worker now)
        (Keeps-bind (lift result) _ (λ g. (refl, refl))
          (λ a.
            Keeps-bind (on_balancer (Balancer.record_success worker.stats.url)) _
              (record_success-Keeps worker) (λ _ g. (refl, refl))))
        (failed-Keeps _ meta endpoint worker now)

  settle_job-Keeps :
      {A : Type 0} (worker : OllamaClient F) (result : Result A) (now : ℕ)
      → Keeps (settle_job worker result now)
  unfolding settle_job
  settle_job-Keeps {A} worker result now =
      Keeps-catch _ (job_failed worker now)
        (Keeps-bind (lift result) _ (λ g. (refl, refl))
          (λ a.
            Keeps-bind (on_balancer (Balancer.record_success worker.stats.url)) _
              (record_success-Keeps worker) (λ _ g. (refl, refl))))
        (λ e.
          Keeps-if (is_runtime_error e) _ (raise e)
            (Keeps-bind {B = Option A} (on_balancer (Balancer.record_failure worker.stats.url now))
              _ (record_failure-Keeps worker now) (λ _ g. (refl, refl)))
            (λ g. (refl, refl)))

  settle_summary-Keeps :
      (worker : OllamaClient F) (result : Result (Completion F String)) (now : ℕ)
      → Keeps (settle_summary worker result now)
  unfolding settle_summary
  settle_summary-Keeps worker result now =
      Keeps-catch _ (summary_failed worker now)
        (Keeps-bind (lift result) _ (λ g. (refl, refl))
          (λ a.
            Keeps-bind (on_balancer (Balancer.record_success worker.stats.url)) _
              (record_success-Keeps worker) (λ _ g. (refl, refl))))
        (λ e.
          Keeps-if (is_runtime_error e) _ (raise e)
            (Keeps-bind {B = String} (on_balancer (Balancer.record_failure worker.stats.url now)) _
              (record_failure-Keeps worker now) (λ _ g. (refl, refl)))
            (λ g. (refl, refl)))

  -- The second half of a request: one request less at its worker.
  abbrev pub Finishes : {A : Type 0} → ℕ → Action (Gateway F) A → Type 0
  Finishes handle m =
      (f : OllamaClient F → OllamaClient F) × ((w : OllamaClient F)
        → ((f w).handle ≡ w.handle) × ((f w).stats.active_requests ≡ w.stats.active_requests - 1))
      × ((g : Gateway F)
          → ((m g).0.balancer.workers
              ≡ map (λ (w : OllamaClient F). change_where handle f w) g.balancer.workers)
            × ((m g).0.balancer.next_handle ≡ g.balancer.next_handle))

  module _ (ops : Floats F) where
    end_request-counts :
        (latency : F) (reply : Reply) (w : OllamaClient F)
        → let w' = end_request ops latency reply w in
          (w'.handle ≡ w.handle) × (w'.stats.active_requests ≡ w.stats.active_requests - 1)
    unfolding end_request
    end_request-counts latency Reply.lost w = (refl, refl)
    end_request-counts latency Reply.malformed w = (refl, refl)
    end_request-counts latency (Reply.answered body) w = (refl, refl)

    -- A change of the worker by its reply, and what keeps the workers after that.
    Finishes-change :
        {A : Type 0} (handle : ℕ) (latency : F) (reply : Reply) (m : Action (Gateway F) A)
        → Keeps m
        → Finishes handle (change_client handle (end_request ops latency reply) >> m)
    unfolding change_client
    Finishes-change handle latency reply m k =
        (end_request ops latency reply, end_request-counts latency reply, λ g. k _)

    pub generate_after-Finishes :
        (meta : Dict String) (worker : OllamaClient F) (latency : F) (reply : Reply) (now : ℕ)
        → Finishes worker.handle (generate_after ops meta worker latency reply now)
    unfolding generate_after
    generate_after-Finishes meta worker latency reply now =
        let result = generate_result ops latency reply worker in
        Finishes-change worker.handle latency _ (settle ops meta "/generate" worker result now)
          (settle-Keeps ops meta "/generate" worker result now)

    pub chat_after-Finishes :
        (meta : Dict String) (worker : OllamaClient F) (latency : F) (reply : Reply) (now : ℕ)
        → Finishes worker.handle (chat_after ops meta worker latency reply now)
    unfolding chat_after
    chat_after-Finishes meta worker latency reply now =
        let result = chat_result ops latency reply worker in
        Finishes-change worker.handle latency _ (settle ops meta "/chat" worker result now)
          (settle-Keeps ops meta "/chat" worker result now)

    pub finish_generate-Finishes :
        (worker : OllamaClient F) (latency : F) (reply : Reply) (now : ℕ)
        → Finishes worker.handle (finish_generate ops worker latency reply now)
    unfolding finish_generate
    finish_generate-Finishes worker latency reply now =
        let result = generate_result ops latency reply worker in
        Finishes-change worker.handle latency _ (settle_job worker result now)
          (settle_job-Keeps worker result now)

    pub finish_chat-Finishes :
        (worker : OllamaClient F) (latency : F) (reply : Reply) (now : ℕ)
        → Finishes worker.handle (finish_chat ops worker latency reply now)
    unfolding finish_chat
    finish_chat-Finishes worker latency reply now =
        let result = chat_result ops latency reply worker in
        Finishes-change worker.handle latency _ (settle_job worker result now)
          (settle_job-Keeps worker result now)

    pub summarizer_after-Finishes :
        (worker : OllamaClient F) (latency : F) (reply : Reply) (now : ℕ)
        → Finishes worker.handle (summarizer_after ops worker latency reply now)
    unfolding summarizer_after
    summarizer_after-Finishes worker latency reply now =
        Finishes-change worker.handle latency _
          (settle_summary worker (generate_result ops latency reply worker) now)
          (settle_summary-Keeps worker (generate_result ops latency reply worker) now)
