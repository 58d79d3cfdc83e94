-- ===== src/Context/Store/Log.antt =====
-- The log of items that stands for a ContextStore, and what filters and updates do to it.
use mathlib.Core.Option
use fleet_llm_inference.Common.{
  String, ◌≡◌, refl, Bool, false, not, Option, none, some, List, [], ◌∷◌, ◌++◌, map, arith, ◌==◌,
  eq_iff, if◌then◌else◌, elem, Distinct, truthy, keep,
}
use fleet_llm_inference.Context.Models.{ContextItem, touch}
use fleet_llm_inference.Context.Store.Index.{names, names_unique}
use fleet_llm_inference.Context.Store.View.{touch_at}

module _ {F : Type 0} where
  abbrev pub in_workflow : String → ContextItem F → Bool
  in_workflow w i = names (truthy i.workflow_id) w

  abbrev pub find : String → List (ContextItem F) → Option (ContextItem F)
  find k [] = none
  find k (i ∷ log) = if i.id == k then some i else find k log

  pub find-append :
      (k : String) (log : List (ContextItem F)) (item : ContextItem F)
      → find item.id log ≡ none
      → find k (log ++ item ∷ []) ≡ (if item.id == k then some item else find k log)
  find-append k [] item h = refl
  find-append k (i ∷ log) item h =
      ground (arith, find-append k log item, eq_iff i.id k, eq_iff item.id k, eq_iff i.id item.id)

  pub find-absent :
      (k : String) (log : List (ContextItem F))
      → elem k (map (λ i. i.id) log) ≡ false
      → find k log ≡ none
  find-absent k [] h = refl
  find-absent k (i ∷ log) h = ground (arith, find-absent k log, eq_iff i.id k, eq_iff k i.id)

  pub absent-find :
      (k : String) (log : List (ContextItem F))
      → find k log ≡ none
      → elem k (map (λ i. i.id) log) ≡ false
  absent-find k [] h = refl
  absent-find k (i ∷ log) h = ground (arith, absent-find k log, eq_iff i.id k, eq_iff k i.id)

  pub elem-keep :
      (k : String) (p : ContextItem F → Bool) (log : List (ContextItem F))
      → elem k (map (λ i. i.id) log) ≡ false
      → elem k (map (λ i. i.id) (keep p log)) ≡ false
  elem-keep k p [] h = refl
  elem-keep k p (i ∷ log) h = ground (arith, elem-keep k p log)

  pub Distinct-keep :
      (p : ContextItem F → Bool) (log : List (ContextItem F))
      → Distinct (map (λ i. i.id) log)
      → Distinct (map (λ i. i.id) (keep p log))
  Distinct-keep p [] h = tt
  Distinct-keep p (i ∷ log) h = ground (arith, Distinct-keep p log h.1, elem-keep i.id p log h.0)

  -- A filtered log holds what passes, where no id stands twice.
  abbrev pub passing : (ContextItem F → Bool) → Option (ContextItem F) → Option (ContextItem F)
  passing p none = none
  passing p (some i) = if p i then some i else none

  pub find-keep :
      (k : String) (p : ContextItem F → Bool) (log : List (ContextItem F))
      → Distinct (map (λ i. i.id) log)
      → find k (keep p log) ≡ passing p (find k log)
  find-keep k p [] h = refl
  find-keep k p (i ∷ log) h = ground (
    arith,
    find-keep k p log h.1,
    eq_iff i.id k,
    find-absent k (keep p log),
    elem-keep i.id p log h.0,
  )

  pub keep_comm :
      (p q : ContextItem F → Bool) (log : List (ContextItem F))
      → keep p (keep q log) ≡ keep q (keep p log)
  keep_comm p q [] = refl
  keep_comm p q (i ∷ log) = ground (arith, keep_comm p q log)

  pub keep-not_self :
      (p : ContextItem F → Bool) (log : List (ContextItem F))
      → keep p (keep (λ i. not (p i)) log) ≡ []
  keep-not_self p [] = refl
  keep-not_self p (i ∷ log) = ground (arith, keep-not_self p log)

  pub keep-other :
      (v w : String) (log : List (ContextItem F))
      → (v == w) ≡ false
      → keep (in_workflow w) (keep (λ i. not (in_workflow v i)) log) ≡ keep (in_workflow w) log
  keep-other v w [] h = refl
  keep-other v w (i ∷ log) h =
      ground (arith, keep-other v w log h, names_unique (truthy i.workflow_id) v w, eq_iff v w)

  pub elem-touch :
      (j k : String) (now : F) (log : List (ContextItem F))
      → elem j (map (λ i. i.id) (map (touch_at k now) log)) ≡ elem j (map (λ i. i.id) log)
  unfolding touch
  elem-touch j k now [] = refl
  elem-touch j k now (i ∷ log) = ground (arith, elem-touch j k now log)

  pub Distinct-touch :
      (k : String) (now : F) (log : List (ContextItem F))
      → Distinct (map (λ i. i.id) log)
      → Distinct (map (λ i. i.id) (map (touch_at k now) log))
  unfolding touch
  Distinct-touch k now [] h = tt
  Distinct-touch k now (i ∷ log) h =
      ground (arith, Distinct-touch k now log h.1, elem-touch i.id k now log)

  pub find-touch :
      (j k : String) (now : F) (log : List (ContextItem F))
      → find j (map (touch_at k now) log) ≡ Option.map (touch_at k now) (find j log)
  unfolding touch
  find-touch j k now [] = refl
  find-touch j k now (i ∷ log) = ground (arith, find-touch j k now log)

  pub keep-touch :
      (w k : String) (now : F) (log : List (ContextItem F))
      → keep (in_workflow w) (map (touch_at k now) log)
        ≡ map (touch_at k now) (keep (in_workflow w) log)
  unfolding touch
  keep-touch w k now [] = refl
  keep-touch w k now (i ∷ log) = ground (arith, keep-touch w k now log)
