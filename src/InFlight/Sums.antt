-- ===== src/InFlight/Sums.antt =====
-- The counters of all workers together.
use fleet_llm_inference.Common.{
  ℕ, ◌<◌, ◌≤◌, ◌+◌, ◌≡◌, refl, List, [], ◌∷◌, arith, All, All-map, length, sum_by, eqb,
  if◌then◌else◌, Bool-cases, inl, inr,
}
use fleet_llm_inference.Workers.Client.{OllamaClient}
use fleet_llm_inference.InFlight.{count}
use fleet_llm_inference.InFlight.Invariant.{Counts, Ascending}

module _ {F : Type 0} where
  -- 1 for the worker of the handle, else 0.
  abbrev is_at : ℕ → OllamaClient F → ℕ
  is_at h w = if eqb h w.handle then 1 else 0

  abbrev counts : List ℕ → List (OllamaClient F) → ℕ
  counts hs ws = sum_by (λ (w : OllamaClient F). count w.handle hs) ws

  is_at-later :
      (h : ℕ) (ws : List (OllamaClient F)) → All (λ w. h < w.handle) ws → sum_by (is_at h) ws ≡ 0
  is_at-later h [] a = refl
  is_at-later h (w ∷ ws) a = ground (arith, is_at-later h ws a.1, a.0)

  is_at-once : (h : ℕ) (ws : List (OllamaClient F)) → Ascending ws → sum_by (is_at h) ws ≤ 1
  is_at-once h [] a = omega arith
  is_at-once h (w ∷ ws) a = elim (Bool-cases (eqb h w.handle)) [
    | inl e ↦ ground (arith, is_at-later h ws (All-map _ _ ws (λ v l. ground (arith, e, l)) a.0))
    | inr e ↦ ground (arith, is_at-once h ws a.1)
  ]

  counts-cons :
      (h : ℕ) (hs : List ℕ) (ws : List (OllamaClient F))
      → counts (h ∷ hs) ws ≡ counts hs ws + sum_by (is_at h) ws
  unfolding count
  counts-cons h hs [] = refl
  counts-cons h hs (w ∷ ws) = ground (arith, counts-cons h hs ws)

  counts-nil : (ws : List (OllamaClient F)) → counts [] ws ≡ 0
  unfolding count
  counts-nil [] = refl
  counts-nil (w ∷ ws) = omega (arith, counts-nil ws)

  counts-le : (hs : List ℕ) (ws : List (OllamaClient F)) → Ascending ws → counts hs ws ≤ length hs
  counts-le [] ws a = omega (arith, counts-nil ws)
  counts-le (h ∷ hs) ws a = omega (arith, counts-cons h hs ws, is_at-once h ws a, counts-le hs ws a)

  active-counts :
      (hs : List ℕ) (ws : List (OllamaClient F))
      → All (Counts hs) ws
      → sum_by (λ w. w.stats.active_requests) ws ≡ counts hs ws
  active-counts hs [] a = refl
  active-counts hs (w ∷ ws) a = omega (arith, a.0, active-counts hs ws a.1)

  -- Workers with different handles have together no more active requests than are in flight.
  pub active-le :
      (hs : List ℕ) (ws : List (OllamaClient F))
      → All (Counts hs) ws
      → Ascending ws
      → sum_by (λ w. w.stats.active_requests) ws ≤ length hs
  active-le hs ws a d = omega (arith, active-counts hs ws a, counts-le hs ws d)
