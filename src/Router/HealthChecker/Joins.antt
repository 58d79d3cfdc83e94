-- ===== src/Router/HealthChecker/Joins.antt =====
-- Workers that join and leave the pool of router/load_balancer.py while others are checked.
use fleet_llm_inference.Common.{
  ℕ, ◌+◌, ◌<◌, String, false, List, [], ◌∷◌, ◌≡◌, refl, inl, inr, arith, All, All-append, All-keep,
  not, ◌==◌, All-map, Bool-cases,
}
use fleet_llm_inference.Common.Floats.{Floats}
use fleet_llm_inference.Workers.Client.{OllamaClient, new_client}
use fleet_llm_inference.Router.Balancer.{add_worker, add_client, has_worker, remove_worker}
use fleet_llm_inference.Router.Balancer.Registry.{HasBreaker-append, HasBreaker-others}
use fleet_llm_inference.Common.Among.{among}
use fleet_llm_inference.Router.HealthChecker.{IsOthers}

not-among : (h : ℕ) (hs : List ℕ) → All (λ x. x < h) hs → among h hs ≡ false
not-among h [] below = refl
not-among h (x ∷ hs) below = ground (arith, not-among h hs below.1, below.0)

module _ {F : Type 0} (ops : Floats F) where
  pub add_worker-IsOthers :
      (hs : List ℕ) (url : String) → IsOthers {F = F} hs (λ lb. (add_worker ops lb url).0)
  unfolding add_worker add_client new_client
  add_worker-IsOthers hs url = record {
    keeps = λ lb serving created. elim (Bool-cases (has_worker lb url)) [
      | inl e ↦ rw e (serving, created)
      | inr e ↦ rw e (
        HasBreaker-append lb.breakers url _ _ lb.workers serving refl,
        All-map (λ h. h < lb.next_handle) (λ h. h < lb.next_handle + 1) hs (λ h k. omega arith)
            created,
      )
    ];
    same = λ lb P created joins known. elim (Bool-cases (has_worker lb url)) [
      | inl e ↦ rw e known
      | inr e ↦ rw e (
          All-append (λ (w : OllamaClient F). P w.handle w.stats.is_healthy) lb.workers _ known
            (joins lb.next_handle (not-among lb.next_handle hs created), tt))
    ];
  }

module _ {F : Type 0} where
  pub remove_worker-IsOthers :
      (hs : List ℕ) (url : String) → IsOthers {F = F} hs (λ lb. (remove_worker lb url).0)
  unfolding remove_worker
  remove_worker-IsOthers hs url = record {
    keeps = λ lb serving created. (HasBreaker-others lb.breakers url lb.workers serving, created);
    same = λ lb P created joins known.
        All-keep (λ (w : OllamaClient F). P w.handle w.stats.is_healthy)
          (λ w. not (w.stats.url == url)) lb.workers known;
  }
