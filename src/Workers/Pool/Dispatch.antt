-- ===== src/Workers/Pool/Dispatch.antt =====
-- What the dispatch of a job in workers/worker_pool.py does.
use fleet_llm_inference.Common.{
  ℕ, ◌≡◌, ◌≢◌, refl, true, inl, inr, none, some, [], arith, List-cases,
}
use fleet_llm_inference.Common.Floats.{Floats}
use fleet_llm_inference.Common.Raises.{
  Exception, ok, raised, is_runtime_error, no_capacity, runtime_error,
}
use fleet_llm_inference.Context.Models.{Stamp}
use fleet_llm_inference.Workers.Client.{OllamaClient}
use fleet_llm_inference.Router.Balancer.{pick_worker}
use fleet_llm_inference.Router.Balancer.Eligible.{IsServing, eligible}
use fleet_llm_inference.Router.Balancer.Pick.{IsFit, pick_worker-IsFit, pick_worker-refuses}
use fleet_llm_inference.Gateway.{Gateway, context_with, change_client}
use fleet_llm_inference.Workers.Pool.{Job, dispatch, record_job, content_of}

module _ {F : Type 0} (ops : Floats F) (g : Gateway F) (job : Job) (now : ℕ) (stamp : Stamp F) where
  dispatch-ok :
      (v : OllamaClient F)
      → (pick_worker ops job.context_tokens now g.balancer).1 ≡ ok v
      → let (g', r) = dispatch ops job now stamp g in
        (r ≡ ok (some v))
        × (g'.contexts
            ≡ context_with ops job.workflow_id job.agent_id (content_of job) stamp g.contexts)
  unfolding dispatch record_job change_client
  dispatch-ok v p = (ground (arith, p), ground (arith, p))

  dispatch-raised :
      (e : Exception)
      → (pick_worker ops job.context_tokens now g.balancer).1 ≡ raised e
      → is_runtime_error e ≡ true
      → let (g', r) = dispatch ops job now stamp g in (r ≡ ok none) × (g'.contexts ≡ g.contexts)
  unfolding dispatch
  dispatch-raised e p t = (ground (arith, p, t), ground (arith, p, t))

  -- With breakers for all workers, a job that some worker can take goes to a fit worker and is
  -- recorded in its workflow, if it has one; any other job ends with an error result and is not recorded.
  pub dispatch_lem :
      IsServing g.balancer
      → let (g', r) = dispatch ops job now stamp g in
        (eligible g.balancer now job.context_tokens ≢ []
          → (v : OllamaClient F) × (r ≡ ok (some v))
            × IsFit g.balancer now job.context_tokens v
            × (g'.contexts
                ≡ context_with ops job.workflow_id job.agent_id (content_of job) stamp g.contexts))
        × (eligible g.balancer now job.context_tokens ≡ []
            → (r ≡ ok none) × (g'.contexts ≡ g.contexts))
  dispatch_lem h = (
    λ some_worker.
        let (v, p, fit) = pick_worker-IsFit ops g.balancer now job.context_tokens h some_worker in
        let (q, k) = dispatch-ok v p in (v, q, fit, k),
    λ nobody.
        let refusal = pick_worker-refuses ops g.balancer now job.context_tokens h nobody in
        elim (List-cases (eligible g.balancer now none)) [
          | inl e ↦ dispatch-raised runtime_error (refusal.0 e).0 refl
          | inr (v, vs, e) ↦ dispatch-raised no_capacity (refusal.1 (λ n. cc)).0 refl
        ],
  )
