-- ===== src/InFlight.antt =====
-- The requests in flight: what gateway/routes.py, context/compression.py and workers/worker_pool.py do
-- around their awaits of a worker, interleaved in any order with one another, with health checks, and
-- with workers that join and leave. A handle is listed once for each request that its worker serves.
pub mod Effects
pub mod Starts
pub mod Invariant
pub mod Sums
pub mod Reached
pub mod Tests
use fleet_llm_inference.Common.{
  ℕ, suc, ◌<◌, String, Bool, Option, none, some, List, [], ◌∷◌, eqb, if◌then◌else◌,
}
use fleet_llm_inference.Common.Floats.{Floats}
use fleet_llm_inference.Common.Raises.{Result, ok, raised}
use fleet_llm_inference.Dict.{Dict}
use fleet_llm_inference.Context.Models.{Stamp}
use fleet_llm_inference.Context.Store.{ContextStore}
use fleet_llm_inference.Workers.Client.{OllamaClient}
use fleet_llm_inference.Workers.Client.Requests.{Reply}
use fleet_llm_inference.Workers.Pool.{Job, dispatch, finish_generate, finish_chat}
use fleet_llm_inference.Router.Balancer.{
  LoadBalancer, Settings, new_balancer, add_worker, remove_worker,
}
use fleet_llm_inference.Router.Balancer.Health.{check_client}
use fleet_llm_inference.Gateway.{Gateway, GenerateRequest, ChatRequest}
use fleet_llm_inference.Gateway.Routes.{generate_before, generate_after, chat_before, chat_after}
use fleet_llm_inference.Gateway.Compression.{summarizer_before, summarizer_after}

pub record System (F : Type 0) : Type 0 where
  pub gateway : Gateway F
  pub in_flight : List ℕ

-- How many of the requests are at the worker of a handle.
unfoldable pub count : ℕ → List ℕ → ℕ
count handle [] = 0
count handle (h ∷ hs) = if eqb h handle then suc (count handle hs) else count handle hs

-- One request less.
unfoldable pub remove : ℕ → List ℕ → List ℕ
remove handle [] = []
remove handle (h ∷ hs) = if eqb h handle then hs else h ∷ remove handle hs

-- The worker of a request that now waits for it.
abbrev pub outcome : {A : Type 0} → (A → Option ℕ) → Result A → Option ℕ
outcome worker_of (ok a) = worker_of a
outcome worker_of (raised e) = none

abbrev pub with_request : Option ℕ → List ℕ → List ℕ
with_request none hs = hs
with_request (some h) hs = h ∷ hs

module _ {F : Type 0} where
  -- After the first half of a request, which waits for a worker where `worker_of` gives one.
  abbrev pub begun : {A : Type 0} → (A → Option ℕ) → System F → Gateway F × Result A → System F
  begun worker_of s p = record {
    gateway = p.0;
    in_flight = with_request (outcome worker_of p.1) s.in_flight;
  }

  -- After the second half.
  abbrev pub ended : {A : Type 0} → OllamaClient F → System F → Gateway F × Result A → System F
  ended worker s p = record { gateway = p.0; in_flight = remove worker.handle s.in_flight }

  abbrev pub with_balancer : System F → LoadBalancer F → System F
  with_balancer s lb = record s { gateway = record s.gateway { balancer = lb } }

  abbrev pub third_handle : {A B : Type 0} → A × B × OllamaClient F → Option ℕ
  third_handle (a, b, worker) = some worker.handle

  abbrev pub first_handle : {A B : Type 0} → OllamaClient F × A × B → Option ℕ
  first_handle (worker, a, b) = some worker.handle

  abbrev pub job_handle : Option (OllamaClient F) → Option ℕ
  job_handle none = none
  job_handle (some worker) = some worker.handle

module _ {F : Type 0} (ops : Floats F) where
  -- One step of one of the tasks.
  pub data Step (s : System F) : System F → Type 0 where
    generate_arrives :
        (req : GenerateRequest) (x_api_key : Option String) (uuid : String) (now : ℕ)
        (stamp : Stamp F)
        → Step s (begun third_handle s (generate_before ops req x_api_key uuid now stamp s.gateway))
    chat_arrives :
        (req : ChatRequest) (x_api_key : Option String) (uuid : String) (now : ℕ) (stamp : Stamp F)
        → Step s (begun third_handle s (chat_before ops req x_api_key uuid now stamp s.gateway))
    job_arrives :
        (job : Job) (now : ℕ) (stamp : Stamp F)
        → Step s (begun job_handle s (dispatch ops job now stamp s.gateway))
    summary_starts :
        (text : String) (model : Option String) (now : ℕ)
        → Step s (begun first_handle s (summarizer_before ops text model now s.gateway))
    generate_returns :
        (meta : Dict String) (worker : OllamaClient F) (latency : F) (reply : Reply) (now : ℕ)
        → 0 < count worker.handle s.in_flight
        → Step s (ended worker s (generate_after ops meta worker latency reply now s.gateway))
    chat_returns :
        (meta : Dict String) (worker : OllamaClient F) (latency : F) (reply : Reply) (now : ℕ)
        → 0 < count worker.handle s.in_flight
        → Step s (ended worker s (chat_after ops meta worker latency reply now s.gateway))
    prompt_job_returns :
        (worker : OllamaClient F) (latency : F) (reply : Reply) (now : ℕ)
        → 0 < count worker.handle s.in_flight
        → Step s (ended worker s (finish_generate ops worker latency reply now s.gateway))
    chat_job_returns :
        (worker : OllamaClient F) (latency : F) (reply : Reply) (now : ℕ)
        → 0 < count worker.handle s.in_flight
        → Step s (ended worker s (finish_chat ops worker latency reply now s.gateway))
    summary_returns :
        (worker : OllamaClient F) (latency : F) (reply : Reply) (now : ℕ)
        → 0 < count worker.handle s.in_flight
        → Step s (ended worker s (summarizer_after ops worker latency reply now s.gateway))
    -- Routes, jobs and compressions also change the contexts in steps without a worker.
    contexts_change :
        (contexts : ContextStore F)
        → Step s (record s { gateway = record s.gateway { contexts = contexts } })
    -- The result of the health check of one worker comes in.
    health_checked :
        (status : ℕ → Option ℕ) (handle : ℕ)
        → Step s (with_balancer s (check_client status handle s.gateway.balancer))
    worker_joins :
        (url : String) → Step s (with_balancer s (add_worker ops s.gateway.balancer url).0)
    worker_leaves :
        (url : String) → Step s (with_balancer s (remove_worker s.gateway.balancer url).0)

  -- What can come of a gateway that starts with workers of some URLs and no request.
  pub data Reach (g : Gateway F) (settings : Settings) (worker_urls : List String)
      : System F → Type 0 where
    start : Reach g settings worker_urls (record {
      gateway = record g { balancer = new_balancer ops settings worker_urls };
      in_flight = [];
    })
    later :
        {s t : System F}
        → Reach g settings worker_urls s
        → Step s t
        → Reach g settings worker_urls t
