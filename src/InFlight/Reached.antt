-- ===== src/InFlight/Reached.antt =====
-- The requests in flight in the states that are reached.
use fleet_llm_inference.Common.{
  ℕ, ◌≤◌, ◌≡◌, refl, sym, subst, String, not, Option, none, some, List, [], ◌∷◌, All, length,
  sum_by, ◌==◌, Bool-cases, inl, inr,
}
use fleet_llm_inference.Common.Floats.{Floats}
use fleet_llm_inference.Common.Actions.{Action}
use fleet_llm_inference.Workers.Client.{OllamaClient, new_client}
use fleet_llm_inference.Router.Balancer.{
  LoadBalancer, Settings, new_balancer, add_all, add_client, add_worker, remove_worker, has_worker,
}
use fleet_llm_inference.Router.Balancer.Health.{check_client}
use fleet_llm_inference.Gateway.{Gateway}
use fleet_llm_inference.Gateway.Routes.{generate_after, chat_after}
use fleet_llm_inference.Gateway.Compression.{summarizer_after}
use fleet_llm_inference.Workers.Pool.{finish_generate, finish_chat}
use fleet_llm_inference.InFlight.{System, Step, Reach, count, remove, with_request}
use fleet_llm_inference.InFlight.Effects.{
  Finishes, generate_after-Finishes, chat_after-Finishes, finish_generate-Finishes,
  finish_chat-Finishes, summarizer_after-Finishes,
}
use fleet_llm_inference.InFlight.Starts.{
  StartsAt, generate_before-Begins, chat_before-Begins, dispatch-Begins, summarizer_before-Begins,
}
use fleet_llm_inference.InFlight.Sums.{active-le}
use fleet_llm_inference.InFlight.Invariant.{
  IsCounted, IsCounted-start, IsCounted-end, IsCounted-check, IsCounted-keep, IsCounted-append,
}

module _ {F : Type 0} where
  abbrev Holds : Gateway F → List ℕ → Type 0
  Holds g hs = IsCounted g.balancer.workers g.balancer.next_handle hs

  StartsAt-Holds :
      (o : Option ℕ) (g g' : Gateway F) (hs : List ℕ)
      → StartsAt o g g'
      → Holds g hs
      → Holds g' (with_request o hs)
  StartsAt-Holds none g g' hs s c =
      subst (λ n. IsCounted g'.balancer.workers n hs) (sym s.1)
        (subst (λ ws. IsCounted ws g.balancer.next_handle hs) (sym s.0) c)
  StartsAt-Holds (some h) g g' hs s c =
      subst (λ n. IsCounted g'.balancer.workers n (h ∷ hs)) (sym s.2)
        (subst (λ ws. IsCounted ws g.balancer.next_handle (h ∷ hs)) (sym s.1)
          (IsCounted-start h g.balancer.workers g.balancer.next_handle hs s.0 c))

  Finishes-Holds :
      {A : Type 0} (h : ℕ) (m : Action (Gateway F) A) (g : Gateway F) (hs : List ℕ)
      → Finishes h m
      → Holds g hs
      → Holds (m g).0 (remove h hs)
  Finishes-Holds h m g hs (f, e, k) c =
      let (p, q) = k g in
      subst (λ n. IsCounted (m g).0.balancer.workers n (remove h hs)) (sym q)
        (subst (λ ws. IsCounted ws g.balancer.next_handle (remove h hs)) (sym p)
          (IsCounted-end h f g.balancer.workers g.balancer.next_handle hs e c))

  abbrev HoldsIn : System F → Type 0
  HoldsIn s = Holds s.gateway s.in_flight

  module _ (ops : Floats F) where
    add_client-IsCounted :
        (lb : LoadBalancer F) (url : String) (hs : List ℕ)
        → IsCounted lb.workers lb.next_handle hs
        → let lb' = add_client ops lb url in IsCounted lb'.workers lb'.next_handle hs
    unfolding add_client new_client
    add_client-IsCounted lb url hs c = IsCounted-append _ lb.workers hs refl c

    add_all-IsCounted :
        (lb : LoadBalancer F) (worker_urls : List String)
        → IsCounted lb.workers lb.next_handle []
        → let lb' = add_all ops lb worker_urls in IsCounted lb'.workers lb'.next_handle []
    unfolding add_all
    add_all-IsCounted lb [] c = c
    add_all-IsCounted lb (url ∷ worker_urls) c =
        add_all-IsCounted (add_client ops lb url) worker_urls (add_client-IsCounted lb url [] c)

    add_worker-IsCounted :
        (lb : LoadBalancer F) (url : String) (hs : List ℕ)
        → IsCounted lb.workers lb.next_handle hs
        → let lb' = (add_worker ops lb url).0 in IsCounted lb'.workers lb'.next_handle hs
    unfolding add_worker
    add_worker-IsCounted lb url hs c = elim (Bool-cases (has_worker lb url)) [
      | inl e ↦ rw e c
      | inr e ↦ rw e (add_client-IsCounted lb url hs c)
    ]

    Step-Holds : {s t : System F} → HoldsIn s → Step ops s t → HoldsIn t
    unfolding check_client remove_worker
    Step-Holds {s} c (Step.generate_arrives req x_api_key uuid now stamp) =
        StartsAt-Holds _ s.gateway _ s.in_flight
          (generate_before-Begins ops req x_api_key uuid now stamp s.gateway c.created) c
    Step-Holds {s} c (Step.chat_arrives req x_api_key uuid now stamp) =
        StartsAt-Holds _ s.gateway _ s.in_flight
          (chat_before-Begins ops req x_api_key uuid now stamp s.gateway c.created) c
    Step-Holds {s} c (Step.job_arrives job now stamp) =
        StartsAt-Holds _ s.gateway _ s.in_flight
          (dispatch-Begins ops job now stamp s.gateway c.created) c
    Step-Holds {s} c (Step.summary_starts text model now) =
        StartsAt-Holds _ s.gateway _ s.in_flight
          (summarizer_before-Begins ops text model now s.gateway c.created) c
    Step-Holds {s} c (Step.generate_returns meta worker latency reply now served) =
        Finishes-Holds worker.handle (generate_after ops meta worker latency reply now) s.gateway
          s.in_flight (generate_after-Finishes ops meta worker latency reply now) c
    Step-Holds {s} c (Step.chat_returns meta worker latency reply now served) =
        Finishes-Holds worker.handle (chat_after ops meta worker latency reply now) s.gateway
          s.in_flight (chat_after-Finishes ops meta worker latency reply now) c
    Step-Holds {s} c (Step.prompt_job_returns worker latency reply now served) =
        Finishes-Holds worker.handle (finish_generate ops worker latency reply now) s.gateway
          s.in_flight (finish_generate-Finishes ops worker latency reply now) c
    Step-Holds {s} c (Step.chat_job_returns worker latency reply now served) =
        Finishes-Holds worker.handle (finish_chat ops worker latency reply now) s.gateway
          s.in_flight (finish_chat-Finishes ops worker latency reply now) c
    Step-Holds {s} c (Step.summary_returns worker latency reply now served) =
        Finishes-Holds worker.handle (summarizer_after ops worker latency reply now) s.gateway
          s.in_flight (summarizer_after-Finishes ops worker latency reply now) c
    Step-Holds {s} c (Step.contexts_change contexts) = c
    Step-Holds {s} c (Step.health_checked status handle) =
        IsCounted-check status handle _ _ s.in_flight c
    Step-Holds {s} c (Step.worker_joins url) =
        add_worker-IsCounted s.gateway.balancer url s.in_flight c
    Step-Holds {s} c (Step.worker_leaves url) =
        IsCounted-keep (λ w. not (w.stats.url == url)) _ _ s.in_flight c

    Reach-Holds :
        {g : Gateway F} {settings : Settings} {worker_urls : List String} {s : System F}
        → Reach ops g settings worker_urls s
        → HoldsIn s
    unfolding new_balancer
    Reach-Holds {worker_urls} Reach.start =
        add_all-IsCounted _ worker_urls
          (record { counted = tt; created = tt; ascending = tt; requested = tt })
    Reach-Holds (Reach.later r step) = Step-Holds (Reach-Holds r) step

    -- In every state that is reached, whatever the order in which requests, jobs and summaries begin and
    -- end, workers are checked, join and leave: the counter `active_requests` of each registered worker is
    -- the number of the requests that wait for it, and the counters add up to no more than all of these.
    pub Reach-counted :
        {g : Gateway F} {settings : Settings} {worker_urls : List String} {s : System F}
        → Reach ops g settings worker_urls s
        → All
            (λ (w : OllamaClient F). w.stats.active_requests ≡ count w.handle s.in_flight)
            s.gateway.balancer.workers
          × (sum_by (λ (w : OllamaClient F). w.stats.active_requests) s.gateway.balancer.workers
              ≤ length s.in_flight)
    Reach-counted {s} r =
        let c = Reach-Holds r in
        (c.counted, active-le s.in_flight s.gateway.balancer.workers c.counted c.ascending)
