-- ===== src/InFlight/Invariant.antt =====
-- The counters `active_requests` of the workers against the requests in flight.
use fleet_llm_inference.Common.{
  if◌then◌else◌, true, false, ℕ, ◌<◌, ◌-◌, ◌+◌, ◌≡◌, refl, sym, subst, ◌∙◌, Bool, Option, none,
  some, List, [], ◌∷◌, ◌++◌, map, arith, All, All-map, All-append, All-keep, keep, eqb,
  if◌then◌else◌, Bool-cases, inl, inr,
}
use fleet_llm_inference.Workers.Client.{OllamaClient}
use fleet_llm_inference.Workers.Client.Requests.{start_request, health_check}
use fleet_llm_inference.Router.Balancer.Health.{check_where}
use fleet_llm_inference.Gateway.{change_where}
use fleet_llm_inference.InFlight.{count, remove}

count-remove :
    (h k : ℕ) (hs : List ℕ)
    → count k (remove h hs) ≡ (if eqb k h then count k hs - 1 else count k hs)
unfolding count remove
count-remove h k [] = ground arith
count-remove h k (m ∷ hs) = ground (arith, count-remove h k hs)

count-unused : (h : ℕ) (hs : List ℕ) → All (λ m. m < h) hs → count h hs ≡ 0
unfolding count
count-unused h [] a = refl
count-unused h (m ∷ hs) a = ground (arith, count-unused h hs a.1, a.0)

All-remove : (P : ℕ → Type 0) (h : ℕ) (hs : List ℕ) → All P hs → All P (remove h hs)
unfolding remove
All-remove P h [] a = tt
All-remove P h (m ∷ hs) a = ground (arith, All-remove P h hs a.1, a.0, a.1)

module _ {F : Type 0} where
  abbrev pub Counts : List ℕ → OllamaClient F → Type 0
  Counts hs w = w.stats.active_requests ≡ count w.handle hs

  -- Handles ascend from worker to worker.
  abbrev pub Ascending : List (OllamaClient F) → Type 0
  Ascending [] = Unit
  Ascending (w ∷ ws) = All (λ (v : OllamaClient F). w.handle < v.handle) ws × Ascending ws

  -- Workers `ws`, where `n` were created and the requests `hs` are in flight.
  pub record IsCounted (ws : List (OllamaClient F)) (n : ℕ) (hs : List ℕ) : Type 0 where
    pub counted : All (Counts hs) ws
    pub created : All (λ (w : OllamaClient F). w.handle < n) ws
    pub ascending : Ascending ws
    pub requested : All (λ h. h < n) hs

  -- A change of workers that leaves their handles.
  module _ (f : OllamaClient F → OllamaClient F)
      (same : (w : OllamaClient F) → (f w).handle ≡ w.handle) where
    All-map_handles :
        (P : ℕ → Type 0) (ws : List (OllamaClient F))
        → All (λ w. P w.handle) ws
        → All (λ w. P w.handle) (map f ws)
    All-map_handles P [] a = tt
    All-map_handles P (w ∷ ws) a = (subst P (sym (same w)) a.0, All-map_handles P ws a.1)

    Ascending-map : (ws : List (OllamaClient F)) → Ascending ws → Ascending (map f ws)
    Ascending-map [] a = tt
    Ascending-map (w ∷ ws) a = (
      subst (λ n. All (λ (v : OllamaClient F). n < v.handle) (map f ws)) (sym (same w))
          (All-map_handles (λ n. w.handle < n) ws a.0),
      Ascending-map ws a.1,
    )

    Counts-map :
        (hs hs' : List ℕ) (ws : List (OllamaClient F))
        → ((w : OllamaClient F) → Counts hs w → Counts hs' (f w))
        → All (Counts hs) ws
        → All (Counts hs') (map f ws)
    Counts-map hs hs' [] h a = tt
    Counts-map hs hs' (w ∷ ws) h a = (h w a.0, Counts-map hs hs' ws h a.1)

    IsCounted-map :
        (ws : List (OllamaClient F)) (n : ℕ) (hs hs' : List ℕ)
        → ((w : OllamaClient F) → Counts hs w → Counts hs' (f w))
        → All (λ h. h < n) hs'
        → IsCounted ws n hs
        → IsCounted (map f ws) n hs'
    IsCounted-map ws n hs hs' h r c = record {
      counted = Counts-map hs hs' ws h c.counted;
      created = All-map_handles (λ m. m < n) ws c.created;
      ascending = Ascending-map ws c.ascending;
      requested = r;
    }

  change_where-handle :
      (h : ℕ) (f : OllamaClient F → OllamaClient F)
      → ((w : OllamaClient F) → (f w).handle ≡ w.handle)
      → (w : OllamaClient F) → (change_where h f w).handle ≡ w.handle
  change_where-handle h f same w = ground (arith, same w)

  pub IsCounted-start :
      (h : ℕ) (ws : List (OllamaClient F)) (n : ℕ) (hs : List ℕ)
      → h < n
      → IsCounted ws n hs
      → IsCounted (map (λ w. change_where h start_request w) ws) n (h ∷ hs)
  unfolding start_request count
  IsCounted-start h ws n hs lt c =
      IsCounted-map (change_where h start_request) (change_where-handle h start_request (λ w. refl))
        ws n hs (h ∷ hs) (λ w e. ground arith) (lt, c.requested) c

  pub IsCounted-end :
      (h : ℕ) (f : OllamaClient F → OllamaClient F) (ws : List (OllamaClient F)) (n : ℕ)
      (hs : List ℕ)
      → ((w : OllamaClient F)
          → ((f w).handle ≡ w.handle) × ((f w).stats.active_requests ≡ w.stats.active_requests - 1))
      → IsCounted ws n hs
      → IsCounted (map (λ w. change_where h f w) ws) n (remove h hs)
  IsCounted-end h f ws n hs e c =
      IsCounted-map (change_where h f) (change_where-handle h f (λ w. (e w).0)) ws n hs
        (remove h hs) (λ w q. ground (arith, e w, count-remove h w.handle hs))
        (All-remove (λ m. m < n) h hs c.requested) c

  pub IsCounted-check :
      (status : ℕ → Option ℕ) (h : ℕ) (ws : List (OllamaClient F)) (n : ℕ) (hs : List ℕ)
      → IsCounted ws n hs
      → IsCounted (map (check_where status h) ws) n hs
  unfolding health_check
  IsCounted-check status h ws n hs c =
      IsCounted-map (check_where status h) (λ w. (check-same w).0) ws n hs hs
        (λ w q. ground (arith, check-same w)) c.requested c
    where
      checked :
          (b : Bool) (w : OllamaClient F) (o : Option ℕ)
          → let w' = if b then (health_check o w).0 else w in
            (w'.handle ≡ w.handle) × (w'.stats.active_requests ≡ w.stats.active_requests)
      checked false w o = (refl, refl)
      checked true w none = (refl, refl)
      checked true w (some n) = (refl, refl)

      check-same :
          (w : OllamaClient F)
          → ((check_where status h w).handle ≡ w.handle)
            × ((check_where status h w).stats.active_requests ≡ w.stats.active_requests)
      check-same w = checked (eqb w.handle h) w (status w.handle)

  Ascending-keep :
      (p : OllamaClient F → Bool) (ws : List (OllamaClient F))
      → Ascending ws
      → Ascending (keep p ws)
  Ascending-keep p [] a = tt
  Ascending-keep p (w ∷ ws) a = elim (Bool-cases (p w)) [
    | inl e ↦ rw e (All-keep (λ v. w.handle < v.handle) p ws a.0, Ascending-keep p ws a.1)
    | inr e ↦ rw e (Ascending-keep p ws a.1)
  ]

  pub IsCounted-keep :
      (p : OllamaClient F → Bool) (ws : List (OllamaClient F)) (n : ℕ) (hs : List ℕ)
      → IsCounted ws n hs
      → IsCounted (keep p ws) n hs
  IsCounted-keep p ws n hs c = record {
    counted = All-keep (Counts hs) p ws c.counted;
    created = All-keep (λ w. w.handle < n) p ws c.created;
    ascending = Ascending-keep p ws c.ascending;
    requested = c.requested;
  }

  Ascending-append :
      (w : OllamaClient F) (ws : List (OllamaClient F))
      → All (λ (v : OllamaClient F). v.handle < w.handle) ws
      → Ascending ws
      → Ascending (ws ++ w ∷ [])
  Ascending-append w [] l a = (tt, tt)
  Ascending-append w (v ∷ ws) l a = (
    All-append (λ u. v.handle < u.handle) ws (w ∷ []) a.0 (l.0, tt),
    Ascending-append w ws l.1 a.1,
  )

  -- A worker that is new serves no request.
  pub IsCounted-append :
      (w : OllamaClient F) (ws : List (OllamaClient F)) (hs : List ℕ)
      → w.stats.active_requests ≡ 0
      → IsCounted ws w.handle hs
      → IsCounted (ws ++ w ∷ []) (w.handle + 1) hs
  IsCounted-append w ws hs e c = record {
    counted =
        All-append (Counts hs) ws (w ∷ []) c.counted
          (e ∙ sym (count-unused w.handle hs c.requested), tt);
    created =
        All-append (λ v. v.handle < w.handle + 1) ws (w ∷ [])
          (All-map _ _ ws (λ v l. omega arith) c.created) (omega arith, tt);
    ascending = Ascending-append w ws c.created c.ascending;
    requested = All-map _ _ hs (λ h l. omega arith) c.requested;
  }
