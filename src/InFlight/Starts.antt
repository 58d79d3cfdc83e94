-- ===== src/InFlight/Starts.antt =====
-- The first halves of the requests, as changes of the workers.
use fleet_llm_inference.Common.{
  ℕ, ◌<◌, ◌≡◌, refl, sym, subst, ◌∙◌, String, Bool, true, false, Option, none, some, map, All,
  if◌then◌else◌, join,
}
use fleet_llm_inference.Common.Floats.{Floats}
use fleet_llm_inference.Common.Raises.{Exception, Result, is_runtime_error}
use fleet_llm_inference.Common.Actions.{Action, pure, raise, catch, get_state, ◌>>=◌, ◌>>◌}
use fleet_llm_inference.Common.Actions.Post.{Returns-anything, Post, and_then-Post, handled-Post}
use fleet_llm_inference.Dict
use fleet_llm_inference.Dict.{Dict}
use fleet_llm_inference.Context.Models.{Stamp}
use fleet_llm_inference.Workers.Client.{OllamaClient}
use fleet_llm_inference.Workers.Client.Requests.{start_request}
use fleet_llm_inference.Workers.Pool.{Job, dispatch, dispatch_to, record_job, no_worker}
use fleet_llm_inference.Router.Balancer.{pick_worker}
use fleet_llm_inference.Router.Balancer.Known.{pick_worker-All}
use fleet_llm_inference.Gateway.{
  Gateway, tokens_with, text_or, GenerateRequest, ChatRequest, Message, change_where, change_client,
  verify_api_key, resolve_agent_metadata, admit, unavailable, record_context, on_balancer,
  get_prospective_context_tokens,
}
use fleet_llm_inference.Gateway.Routes.{generate_before, chat_before}
use fleet_llm_inference.Gateway.Compression.{summarizer_before}
use fleet_llm_inference.InFlight.{outcome, third_handle, first_handle, job_handle}
use fleet_llm_inference.InFlight.Effects.{
  SameWorkers, Keeps, verify_api_key-Keeps, record_workflow_failure-Keeps,
}

module _ {F : Type 0} where
  -- From `g` to `g'`, a request to the worker of the handle has begun, if there is one.
  abbrev pub StartsAt : Option ℕ → Gateway F → Gateway F → Type 0
  StartsAt none g g' = SameWorkers g g'
  StartsAt (some h) g g' =
      (h < g.balancer.next_handle)
      × (g'.balancer.workers
          ≡ map (λ (w : OllamaClient F). change_where h start_request w) g.balancer.workers)
      × (g'.balancer.next_handle ≡ g.balancer.next_handle)

  abbrev pub Begins : {A : Type 0} → (A → Option ℕ) → Gateway F → Gateway F × Result A → Type 0
  Begins worker_of g p = StartsAt (outcome worker_of p.1) g p.0

  abbrev pub IsKnown : Gateway F → Type 0
  IsKnown g = All (λ (w : OllamaClient F). w.handle < g.balancer.next_handle) g.balancer.workers

  abbrev Younger : Gateway F → OllamaClient F → Type 0
  Younger g w = w.handle < g.balancer.next_handle

  StartsAt-same :
      (o : Option ℕ) (g g' g'' : Gateway F)
      → SameWorkers g g'
      → StartsAt o g' g''
      → StartsAt o g g''
  StartsAt-same none g g' g'' s h = (h.0 ∙ s.0, h.1 ∙ s.1)
  StartsAt-same (some n) g g' g'' s h = (
    subst (λ m. n < m) s.1 h.0,
    subst (λ ws. g''.balancer.workers ≡ map (λ w. change_where n start_request w) ws) s.0 h.1,
    h.2 ∙ s.1,
  )

  IsKnown-same : (g g' : Gateway F) → SameWorkers g g' → IsKnown g → IsKnown g'
  IsKnown-same g g' s k =
      subst (λ n. All (λ (w : OllamaClient F). w.handle < n) g'.balancer.workers) (sym s.1)
        (subst (All (Younger g)) (sym s.0) k)

  module _ {B : Type 0} (worker_of : B → Option ℕ) where
    -- What changes no worker may come first.
    Begins-after :
        {A : Type 0} (m : Action (Gateway F) A) (f : A → Action (Gateway F) B)
        → Keeps m
        → ((a : A) (g : Gateway F) → IsKnown g → Begins worker_of g (f a g))
        → (g : Gateway F) → IsKnown g
        → Begins worker_of g ((m >>= f) g)
    Begins-after m f k l g known =
        and_then-Post {R = SameWorkers g} (Begins worker_of g) (m g) f (k g, Returns-anything _)
          (λ a g' s _.
            StartsAt-same (outcome worker_of (f a g').1) g g' _ s
              (l a g' (IsKnown-same g g' s known)))
          (λ _ _ s. s)

    -- A request to the worker that was found.
    Begins-found :
        (m : Action (Gateway F) (OllamaClient F)) (f : OllamaClient F → Action (Gateway F) B)
        (g : Gateway F)
        → Post (SameWorkers g) (Younger g) (m g)
        → ((w : OllamaClient F) (g' : Gateway F) → Younger g' w → Begins worker_of g' (f w g'))
        → Begins worker_of g ((m >>= f) g)
    Begins-found m f g p l =
        and_then-Post (Begins worker_of g) (m g) f p
          (λ w g' s y.
            StartsAt-same (outcome worker_of (f w g').1) g g' _ s
              (l w g' (subst (λ n. w.handle < n) (sym s.1) y)))
          (λ _ _ s. s)

  -- The worker of a job, where there is one.
  abbrev IsYounger : Option (OllamaClient F) → Gateway F → Type 0
  IsYounger none g = Unit {0}
  IsYounger (some w) g = Younger g w

  Post-if :
      {A : Type 0} (P : A → Type 0) (b : Bool) (m n : Action (Gateway F) A) (g g' : Gateway F)
      → Post (SameWorkers g) P (m g')
      → Post (SameWorkers g) P (n g')
      → Post (SameWorkers g) P ((if b then m else n) g')
  Post-if P true m n g g' h k = h
  Post-if P false m n g g' h k = k

  IsYounger-same :
      (o : Option (OllamaClient F)) (g g' : Gateway F)
      → SameWorkers g g'
      → IsYounger o g
      → IsYounger o g'
  IsYounger-same none g g' s y = tt
  IsYounger-same (some w) g g' s y = subst (λ n. w.handle < n) (sym s.1) y

  module _ (ops : Floats F) where
    pick-Post :
        (g : Gateway F) (context_tokens : Option ℕ) (now : ℕ)
        → IsKnown g
        → Post (SameWorkers g) (Younger g) (on_balancer (pick_worker ops context_tokens now) g)
    pick-Post g context_tokens now known =
        pick_worker-All ops (Younger g) g.balancer context_tokens now known

    unavailable-Post :
        (meta : Dict String) (endpoint : String) (e : Exception) (g g' : Gateway F)
        → SameWorkers g g'
        → Post (SameWorkers g) (Younger g) (unavailable meta endpoint e g')
    unfolding unavailable
    unavailable-Post meta endpoint e g g' s =
        Post-if (Younger g) (is_runtime_error e) _ (raise e) g g'
          (let k = record_workflow_failure-Keeps meta endpoint g' in ((k.0 ∙ s.0, k.1 ∙ s.1), tt))
          (s, tt)

    admit-Post :
        (meta : Dict String) (endpoint content : String) (now : ℕ) (stamp : Stamp F) (g : Gateway F)
        → IsKnown g
        → Post (SameWorkers g) (Younger g) (admit ops meta endpoint content now stamp g)
    unfolding admit get_prospective_context_tokens record_context
    admit-Post meta endpoint content now stamp g known =
        let picked =
          on_balancer
            (pick_worker ops (tokens_with (Dict.get meta "workflow_id") content g.contexts) now) in
        let K = Post (SameWorkers g) (Younger g) in
        and_then-Post K (catch picked (unavailable meta endpoint) g) _
          (handled-Post K (picked g) (unavailable meta endpoint) (pick-Post g _ now known)
            (λ w g' s y. (s, y)) (λ e g' s. unavailable-Post meta endpoint e g g' s))
          (λ w g' s y. (s, y)) (λ e g' s. (s, tt))

    pub generate_before-Begins :
        (req : GenerateRequest) (x_api_key : Option String) (uuid : String) (now : ℕ)
        (stamp : Stamp F) (g : Gateway F)
        → IsKnown g
        → Begins third_handle g (generate_before ops req x_api_key uuid now stamp g)
    unfolding generate_before resolve_agent_metadata change_client
    generate_before-Begins req x_api_key uuid now stamp =
        Begins-after third_handle (verify_api_key x_api_key) _ (verify_api_key-Keeps x_api_key)
          (λ _.
            Begins-after third_handle (resolve_agent_metadata req.agent "/generate" uuid) _
              (λ g. (refl, refl))
              (λ meta.
                Begins-after third_handle get_state _ (λ g. (refl, refl))
                  (λ g' g known.
                    Begins-found third_handle (admit ops meta "/generate" req.prompt now stamp)
                      (λ w.
                        change_client w.handle start_request
                        >> pure (meta, text_or req.model g'.config.default_model, w))
                      g (admit-Post meta "/generate" req.prompt now stamp g known)
                      (λ w g'' y. (y, refl, refl)))))

    pub chat_before-Begins :
        (req : ChatRequest) (x_api_key : Option String) (uuid : String) (now : ℕ) (stamp : Stamp F)
        (g : Gateway F)
        → IsKnown g
        → Begins third_handle g (chat_before ops req x_api_key uuid now stamp g)
    unfolding chat_before resolve_agent_metadata change_client
    chat_before-Begins req x_api_key uuid now stamp =
        let content = join "\n" (map (λ (m : Message). m.content) req.messages) in
        Begins-after third_handle (verify_api_key x_api_key) _ (verify_api_key-Keeps x_api_key)
          (λ _.
            Begins-after third_handle (resolve_agent_metadata req.agent "/chat" uuid) _
              (λ g. (refl, refl))
              (λ meta.
                Begins-after third_handle get_state _ (λ g. (refl, refl))
                  (λ g' g known.
                    Begins-found third_handle (admit ops meta "/chat" content now stamp)
                      (λ w.
                        change_client w.handle start_request
                        >> pure (meta, text_or req.model g'.config.default_model, w))
                      g (admit-Post meta "/chat" content now stamp g known)
                      (λ w g'' y. (y, refl, refl)))))

    pub summarizer_before-Begins :
        (text : String) (model : Option String) (now : ℕ) (g : Gateway F)
        → IsKnown g
        → Begins first_handle g (summarizer_before ops text model now g)
    unfolding summarizer_before change_client
    summarizer_before-Begins text model now g known =
        Begins-found first_handle (on_balancer (pick_worker ops none now)) _ g
          (pick-Post g none now known) (λ w g' y. (y, refl, refl))

    dispatch_to-Begins :
        (job : Job) (stamp : Stamp F) (o : Option (OllamaClient F)) (g : Gateway F)
        → IsYounger o g
        → Begins job_handle g (dispatch_to ops job stamp o g)
    unfolding record_job change_client
    dispatch_to-Begins job stamp none g y = (refl, refl)
    dispatch_to-Begins job stamp (some w) g y = (y, refl, refl)

    pub dispatch-Begins :
        (job : Job) (now : ℕ) (stamp : Stamp F) (g : Gateway F)
        → IsKnown g
        → Begins job_handle g (dispatch ops job now stamp g)
    unfolding dispatch
    dispatch-Begins job now stamp g known =
        let picked : Action (Gateway F) (Option (OllamaClient F)) = (do
          w ← on_balancer (pick_worker ops job.context_tokens now)
          pure (some w)) in
        let P = λ (o : Option (OllamaClient F)). IsYounger o g in
        and_then-Post {P = P} (Begins job_handle g) (catch picked no_worker g) _
          (handled-Post {P = P} (Post (SameWorkers g) P) (picked g) no_worker
            (and_then-Post (Post (SameWorkers g) P)
              (on_balancer (pick_worker ops job.context_tokens now) g) _ (pick-Post g _ now known)
              (λ w g' s y. (s, y)) (λ e g' s. (s, tt)))
            (λ o g' s y. (s, y))
            (λ e g' s. Post-if P (is_runtime_error e) (pure none) (raise e) g g' (s, tt) (s, tt)))
          (λ o g' s y.
            StartsAt-same (outcome job_handle (dispatch_to ops job stamp o g').1) g g' _ s
              (dispatch_to-Begins job stamp o g' (IsYounger-same o g g' s y)))
          (λ e g' s. s)
