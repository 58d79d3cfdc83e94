-- ===== src/Context/Manager/Oldest.antt =====
-- Which items a compression takes.
use fleet_llm_inference.Common.{
  ℕ, zero, suc, String, ◌≡◌, refl, ◌∙◌, inl, inr, Bool, true, false, Option, none, some, List, [],
  ◌∷◌, arith, ◌==◌, eq_iff, eq_refl, Option-cases, if◌then◌else◌, elem, Distinct, take, All,
  All-keep, All-take, Bool-cases,
}
use fleet_llm_inference.Dict
use fleet_llm_inference.Dict.{Dict}
use fleet_llm_inference.Common.Floats.{Floats}
use fleet_llm_inference.Common.Sort.{sorted, insert}
use fleet_llm_inference.Context.Models.{ContextType, ContextItem}
use fleet_llm_inference.Context.Store.{ContextStore, present, of_type, ids_of}
use fleet_llm_inference.Context.Store.Invariant.{IsConsistent}
use fleet_llm_inference.Context.Store.View.{view}
use fleet_llm_inference.Context.Store.Log.{find, Distinct-keep}
use fleet_llm_inference.Context.Manager.{oldest, older, first_of_all, get_candidate_context}
use fleet_llm_inference.Context.Manager.Replace.{ids}

module _ {F : Type 0} where
  elem-present :
      (d : Dict (ContextItem F)) (k : String) (xs : List String)
      → ((j : String) (i : ContextItem F) → Dict.get d j ≡ some i → i.id ≡ j)
      → elem k xs ≡ false
      → elem k (ids (present d xs)) ≡ false
  unfolding present
  elem-present d k [] c h = refl
  elem-present d k (x ∷ xs) c h = elim (Option-cases (Dict.get d x)) [
    | inl e ↦ rw (e, present) (elem-present d k xs c (ground arith))
    | inr (i, e) ↦ rw (e, present) (ground (arith, elem-present d k xs c, c x i e))
  ]

  Distinct-present :
      (d : Dict (ContextItem F)) (xs : List String)
      → ((j : String) (i : ContextItem F) → Dict.get d j ≡ some i → i.id ≡ j)
      → Distinct xs
      → Distinct (ids (present d xs))
  unfolding present
  Distinct-present d [] c h = tt
  Distinct-present d (x ∷ xs) c h = elim (Option-cases (Dict.get d x)) [
    | inl e ↦ rw (e, present) (Distinct-present d xs c h.1)
    | inr (i, e) ↦
        rw (e, present) (elem-present d i.id xs c (rw (c x i e) h.0), Distinct-present d xs c h.1)
  ]

  -- No id stands twice in a workflow's list.
  pub Distinct-view : (s : ContextStore F) (w : String) → IsConsistent s → Distinct (ids (view s w))
  unfolding view
  Distinct-view s w c = Distinct-present s.items (ids_of s w) c.keyed (c.distinct w)

  All-find_cons :
      (x : ContextItem F) (rest xs : List (ContextItem F))
      → elem x.id (ids xs) ≡ false
      → All (λ i. find i.id rest ≡ some i) xs
      → All (λ i. find i.id (x ∷ rest) ≡ some i) xs
  All-find_cons x rest [] h a = tt
  All-find_cons x rest (i ∷ xs) h a =
      (ground (arith, a.0), All-find_cons x rest xs (ground arith) a.1)

  All-find : (xs : List (ContextItem F)) → Distinct (ids xs) → All (λ i. find i.id xs ≡ some i) xs
  All-find [] h = tt
  All-find (x ∷ xs) h = (rw (eq_refl x.id) refl, All-find_cons x xs xs h.0 (All-find xs h.1))

module _ {F : Type 0} (less : ContextItem F → ContextItem F → Bool) where
  elem-insert :
      (k : String) (x : ContextItem F) (xs : List (ContextItem F))
      → elem k (ids (insert less x xs)) ≡ (if k == x.id then true else elem k (ids xs))
  unfolding insert
  elem-insert k x [] = refl
  elem-insert k x (y ∷ xs) = ground (arith, elem-insert k x xs)

  Distinct-insert :
      (x : ContextItem F) (xs : List (ContextItem F))
      → elem x.id (ids xs) ≡ false
      → Distinct (ids xs)
      → Distinct (ids (insert less x xs))
  unfolding insert
  Distinct-insert x [] h d = (refl, tt)
  Distinct-insert x (y ∷ xs) h d =
      ground
        (arith, Distinct-insert x xs, elem-insert y.id x xs, eq_iff x.id y.id, eq_iff y.id x.id)

  elem-sorted :
      (k : String) (xs : List (ContextItem F)) → elem k (ids (sorted less xs)) ≡ elem k (ids xs)
  unfolding sorted
  elem-sorted k [] = refl
  elem-sorted k (x ∷ xs) = ground (arith, elem-sorted k xs, elem-insert k x (sorted less xs))

  Distinct-sorted :
      (xs : List (ContextItem F)) → Distinct (ids xs) → Distinct (ids (sorted less xs))
  unfolding sorted
  Distinct-sorted [] d = tt
  Distinct-sorted (x ∷ xs) d =
      Distinct-insert x (sorted less xs) (elem-sorted x.id xs ∙ d.0) (Distinct-sorted xs d.1)

  All-insert :
      (P : ContextItem F → Type 0) (x : ContextItem F) (xs : List (ContextItem F))
      → P x
      → All P xs
      → All P (insert less x xs)
  unfolding insert
  All-insert P x [] p h = (p, tt)
  All-insert P x (y ∷ xs) p h = elim (Bool-cases (less y x)) [
    | inl e ↦ rw e (h.0, All-insert P x xs p h.1)
    | inr e ↦ rw e (p, h)
  ]

  All-sorted :
      (P : ContextItem F → Type 0) (xs : List (ContextItem F)) → All P xs → All P (sorted less xs)
  unfolding sorted
  All-sorted P [] h = tt
  All-sorted P (x ∷ xs) h = All-insert P x (sorted less xs) h.0 (All-sorted P xs h.1)

module _ {F : Type 0} where
  elem-take :
      (k : String) (n : ℕ) (xs : List (ContextItem F))
      → elem k (ids xs) ≡ false
      → elem k (ids (take n xs)) ≡ false
  elem-take k zero xs h = refl
  elem-take k (suc n) [] h = refl
  elem-take k (suc n) (x ∷ xs) h = ground (arith, elem-take k n xs)

  Distinct-take :
      (n : ℕ) (xs : List (ContextItem F)) → Distinct (ids xs) → Distinct (ids (take n xs))
  Distinct-take zero xs h = tt
  Distinct-take (suc n) [] h = tt
  Distinct-take (suc n) (x ∷ xs) h = (elem-take x.id n xs h.0, Distinct-take n xs h.1)

  Distinct-first_of_all :
      (n : Option ℕ) (xs : List (ContextItem F))
      → Distinct (ids xs)
      → Distinct (ids (first_of_all n xs))
  Distinct-first_of_all none xs h = h
  Distinct-first_of_all (some n) xs h = Distinct-take n xs h

  All-first_of_all :
      (P : ContextItem F → Type 0) (n : Option ℕ) (xs : List (ContextItem F))
      → All P xs
      → All P (first_of_all n xs)
  All-first_of_all P none xs h = h
  All-first_of_all P (some n) xs h = All-take P n xs h

  Distinct-of_type :
      (t : Option ContextType) (xs : List (ContextItem F))
      → Distinct (ids xs)
      → Distinct (ids (of_type t xs))
  unfolding of_type
  Distinct-of_type none xs h = h
  Distinct-of_type (some t) xs h = Distinct-keep _ xs h

  All-of_type :
      (P : ContextItem F → Type 0) (t : Option ContextType) (xs : List (ContextItem F))
      → All P xs
      → All P (of_type t xs)
  unfolding of_type
  All-of_type P none xs h = h
  All-of_type P (some t) xs h = All-keep P _ xs h

module _ {F : Type 0} (ops : Floats F) where
  -- The items that a compression takes are distinct items of the workflow.
  pub Distinct-oldest :
      (s : ContextStore F) (w : String) (n : Option ℕ) (t : Option ContextType)
      → IsConsistent s
      → Distinct (ids (oldest ops s w n t))
  unfolding oldest get_candidate_context view
  Distinct-oldest s w n t c =
      Distinct-first_of_all n _
        (Distinct-sorted (older ops) _ (Distinct-of_type t _ (Distinct-view s w c)))

  pub All-oldest :
      (s : ContextStore F) (w : String) (n : Option ℕ) (t : Option ContextType)
      → IsConsistent s
      → All (λ i. find i.id (view s w) ≡ some i) (oldest ops s w n t)
  unfolding oldest get_candidate_context view
  All-oldest s w n t c =
      All-first_of_all _ n _
        (All-sorted (older ops) _ _ (All-of_type _ t _ (All-find _ (Distinct-view s w c))))
