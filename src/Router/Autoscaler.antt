-- ===== src/Router/Autoscaler.antt =====
-- The static mode of router/autoscaler.py: standby URLs that join and leave the pool of
-- router/load_balancer.py. Times are whole ticks of the monotonic clock; `depth` is what Redis answers;
-- `status` is the answer to the health check of a new worker, and `during` what others do to the load
-- balancer while it is awaited.
pub mod Scaling
pub mod Bounds
use fleet_llm_inference.Common.{
  ℕ, ◌+◌, ◌-◌, String, Bool, true, false, Option, none, some, List, [], ◌∷◌, ◌++◌, map, ◌==◌, eqb,
  leb, ltb, if◌then◌else◌, length,
}
use fleet_llm_inference.Common.Floats.{Floats}
use fleet_llm_inference.Workers.Client.{OllamaClient}
use fleet_llm_inference.Workers.Client.Requests.{health_check}
use fleet_llm_inference.Router.Balancer.{LoadBalancer, add_worker, remove_worker}

pub record Autoscaler (F : Type 0) : Type 0 where
  pub min_workers : ℕ
  pub max_workers : ℕ
  pub scale_up_threshold : ℕ
  pub scale_down_threshold : ℕ
  pub cooldown : ℕ
  pub last_scale_time : ℕ
  pub standby : List String
  pub active_dynamic : List String
  pub balancer : LoadBalancer F

module _ {F : Type 0} where
  abbrev pub running_worker_count : Autoscaler F → ℕ
  running_worker_count a = length a.balancer.workers

  unfoldable pub in_cooldown : Autoscaler F → ℕ → Bool
  in_cooldown a now = ltb (now - a.last_scale_time) a.cooldown

  -- `next((w for w in workers if w.stats.url == url), None)`, by its handle
  unfoldable pub client_at : List (OllamaClient F) → String → Option ℕ
  client_at [] url = none
  client_at (w ∷ ws) url = if w.stats.url == url then some w.handle else client_at ws url

  abbrev pub checked : Option ℕ → OllamaClient F → OllamaClient F
  checked status w = (health_check status w).0

  -- The health check of the client object of a handle.
  unfoldable pub check_client : Option ℕ → Option ℕ → LoadBalancer F → LoadBalancer F
  check_client none status lb = lb
  check_client (some handle) status lb = record lb {
    workers =
        map (λ (w : OllamaClient F). if eqb w.handle handle then checked status w else w)
          lb.workers;
  }

-- `xs.pop()`: the last element and the others
unfoldable pub pop_last : String → List String → List String × String
pop_last x [] = ([], x)
pop_last x (y ∷ ys) = let (rest, l) = pop_last y ys in (x ∷ rest, l)

module _ {F : Type 0} where
  unfoldable pub scale_down_static : Autoscaler F → ℕ → Autoscaler F
  scale_down_static a now = elim (a.active_dynamic) [
    | [] ↦ a
    | u ∷ us ↦ record a {
      active_dynamic = (pop_last u us).0;
      balancer = (remove_worker a.balancer (pop_last u us).1).0;
      standby = (pop_last u us).1 ∷ a.standby;
      last_scale_time = now;
    }
  ]

  unfoldable pub scale_down : Autoscaler F → ℕ → Autoscaler F
  unfolding scale_down_static
  scale_down a now =
      if leb (running_worker_count a) a.min_workers then a else scale_down_static a now

module _ {F : Type 0} (ops : Floats F) where
  unfoldable pub scale_up_static :
      Autoscaler F → (LoadBalancer F → LoadBalancer F) → Option ℕ → ℕ → Autoscaler F
  unfolding client_at check_client
  scale_up_static a during status now = elim (a.standby) [
    | [] ↦ a
    | url ∷ standby ↦
        let (lb, added) = add_worker ops a.balancer url in
        if added
        then record a {
          standby = standby;
          balancer = check_client (client_at lb.workers url) status (during lb);
          active_dynamic = a.active_dynamic ++ url ∷ [];
          last_scale_time = now;
        }
        else record a { standby = standby; balancer = lb }
  ]

  unfoldable pub scale_up :
      Autoscaler F → (LoadBalancer F → LoadBalancer F) → Option ℕ → ℕ → Autoscaler F
  unfolding scale_up_static
  scale_up a during status now =
      if leb a.max_workers (running_worker_count a) then a else scale_up_static a during status now

  -- One round of the monitoring loop.
  unfoldable pub round :
      Autoscaler F → ℕ → (LoadBalancer F → LoadBalancer F) → Option ℕ → ℕ → Autoscaler F
  unfolding in_cooldown scale_up scale_down
  round a depth during status now =
      if in_cooldown a now
      then a
      else if leb a.scale_up_threshold depth
      then scale_up a during status now
      else if leb depth a.scale_down_threshold
      then (if ltb a.min_workers (running_worker_count a) then scale_down a now else a)
      else a
