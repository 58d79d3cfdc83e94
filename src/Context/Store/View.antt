-- ===== src/Context/Store/View.antt =====
-- What the operations of a ContextStore do to the list of a workflow and to its token total.
use fleet_llm_inference.Common.{
  ◌+◌, sum_by-append, eq_refl, String, ◌≡◌, refl, inl, inr, ◌∙◌, sym, map, true, false, not, none,
  some, List, [], ◌∷◌, ◌++◌, arith, ◌==◌, eq_iff, if◌then◌else◌, elem, truthy, remove_first, sum_by,
  keep, Option-cases, Bool-cases,
}
use fleet_llm_inference.Dict
use fleet_llm_inference.Dict.{Dict, get-put, get-pop}
use fleet_llm_inference.Context.Models.{ContextItem, touch}
use fleet_llm_inference.Context.Store.{
  ContextStore, ids_of, pop_all, present, add, get, delete, clear_workflow, list_for_workflow,
  total_tokens,
}
use fleet_llm_inference.Context.Store.Index.{
  names, names_unique, index_lem, unindex_lem, get-pop_all,
}
use fleet_llm_inference.Context.Store.Invariant.{IsConsistent, owner}

module _ {F : Type 0} where
  -- The items of a workflow, oldest first.
  unfoldable pub view : ContextStore F → String → List (ContextItem F)
  unfolding list_for_workflow
  view s w = list_for_workflow s w none

  present-append :
      (d : Dict (ContextItem F)) (xs ys : List String)
      → present d (xs ++ ys) ≡ present d xs ++ present d ys
  unfolding present
  present-append d [] ys = refl
  present-append d (x ∷ xs) ys = ground (arith, present-append d xs ys)

  -- A write under an id that is not listed changes nothing.
  present-put :
      (d : Dict (ContextItem F)) (k : String) (i : ContextItem F) (xs : List String)
      → elem k xs ≡ false
      → present (Dict.put d k i) xs ≡ present d xs
  unfolding present
  present-put d k i [] h = refl
  present-put d k i (x ∷ xs) h = ground (arith, get-put d k x i, eq_iff k x, present-put d k i xs)

  -- Entries whose items stand under their own ids.
  abbrev IsKeyed : Dict (ContextItem F) → Type 0
  IsKeyed d = (k : String) (i : ContextItem F) → Dict.get d k ≡ some i → i.id ≡ k

  present-pop :
      (d : Dict (ContextItem F)) (k : String) (xs : List String)
      → IsKeyed d
      → present (Dict.pop d k) xs ≡ keep (λ i. not (i.id == k)) (present d xs)
  unfolding present
  present-pop d k [] c = refl
  present-pop d k (x ∷ xs) c = elim (Option-cases (Dict.get d x)) [
    | inl e ↦ ground (arith, e, get-pop d k x, eq_iff k x, present-pop d k xs c)
    | inr (i, e) ↦
        ground (arith, e, c x i e, get-pop d k x, eq_iff k x, eq_iff i.id k, present-pop d k xs c)
  ]

  present-remove_first :
      (d : Dict (ContextItem F)) (k : String) (xs : List String)
      → present (Dict.pop d k) (remove_first k xs) ≡ present (Dict.pop d k) xs
  unfolding present
  present-remove_first d k [] = refl
  present-remove_first d k (x ∷ xs) =
      ground (arith, get-pop d k x, eq_iff k x, present-remove_first d k xs)

  present-pop_all :
      (d : Dict (ContextItem F)) (ids xs : List String)
      → ((x : String) → elem x xs ≡ true → elem x ids ≡ false)
      → present (pop_all ids d) xs ≡ present d xs
  unfolding present
  present-pop_all d ids [] h = refl
  present-pop_all d ids (x ∷ xs) h = ground (
    arith,
    eq_iff x x,
    get-pop_all ids x d,
    h x,
    present-pop_all d ids xs (λ y e. h y (ground arith)),
  )

  present-pop_absent :
      (d : Dict (ContextItem F)) (k : String) (xs : List String)
      → Dict.get d k ≡ none
      → present (Dict.pop d k) xs ≡ present d xs
  unfolding present
  present-pop_absent d k [] h = refl
  present-pop_absent d k (x ∷ xs) h =
      ground (arith, get-pop d k x, eq_iff k x, present-pop_absent d k xs h)

  -- A new item goes to the end of its workflow's list, and no other list changes.
  pub view-add :
      (s : ContextStore F) (item : ContextItem F) (w : String)
      → IsConsistent s
      → Dict.get s.items item.id ≡ none
      → view (add s item) w
        ≡ (if names (truthy item.workflow_id) w then view s w ++ item ∷ [] else view s w)
  unfolding view add
  view-add s item w c fresh = rw index_lem (
      ground (
        arith,
        c.listed item.id w,
        present-append (Dict.put s.items item.id item) (ids_of s w) (item.id ∷ []),
        present-put s.items item.id item (ids_of s w),
        get-put s.items item.id item.id item,
        eq_iff item.id item.id,
      ))

  -- A deleted item leaves every list, and all else stays in place.
  pub view-delete :
      (s : ContextStore F) (k w : String)
      → IsConsistent s
      → view (delete s k).0 w ≡ keep (λ i. not (i.id == k)) (view s w)
  unfolding view delete
  view-delete s k w c = elim (Option-cases (Dict.get s.items k)) [
    | inl e ↦
        rw (e, delete)
          (sym (present-pop_absent s.items k (ids_of s w) e)
            ∙ present-pop s.items k (ids_of s w) c.keyed)
    | inr (i, e) ↦
        rw (e, delete, unindex_lem)
          (ground (
            arith,
            present-pop s.items k (ids_of s w) c.keyed,
            present-remove_first s.items k (ids_of s w),
          ))
  ]

  pub view-clear_workflow :
      (s : ContextStore F) (v w : String)
      → IsConsistent s
      → view (clear_workflow s v).0 w ≡ (if v == w then [] else view s w)
  unfolding view clear_workflow
  view-clear_workflow s v w c = elim (Bool-cases (v == w)) [
    | inl e ↦ rw (get-pop, e) refl
    | inr e ↦
        rw (get-pop, e)
          (present-pop_all s.items (ids_of s v) (ids_of s w) (λ x h. ground (
            arith,
            c.listed x v,
            c.listed x w,
            names_unique (owner (Dict.get s.items x)) v w,
            eq_iff v w,
          )))
  ]

  abbrev pub touch_at : String → F → ContextItem F → ContextItem F
  touch_at k now i = if i.id == k then touch i now else i

  present-touch :
      (d : Dict (ContextItem F)) (k : String) (j : ContextItem F) (now : F) (xs : List String)
      → IsKeyed d
      → Dict.get d k ≡ some j
      → present (Dict.put d k (touch j now)) xs ≡ map (touch_at k now) (present d xs)
  unfolding present
  present-touch d k j now [] c e = refl
  present-touch d k j now (x ∷ xs) c e = elim (Option-cases (Dict.get d x)) [
    | inl h ↦
        ground
          (arith, h, e, get-put d k x (touch j now), eq_iff k x, present-touch d k j now xs c e)
    | inr (i, h) ↦ ground (
      arith,
      h,
      e,
      c x i h,
      get-put d k x (touch j now),
      eq_iff k x,
      eq_iff i.id k,
      present-touch d k j now xs c e,
    )
  ]

  map-touch_absent :
      (d : Dict (ContextItem F)) (k : String) (now : F) (xs : List String)
      → IsKeyed d
      → Dict.get d k ≡ none
      → present d xs ≡ map (touch_at k now) (present d xs)
  unfolding present
  map-touch_absent d k now [] c e = refl
  map-touch_absent d k now (x ∷ xs) c e = elim (Option-cases (Dict.get d x)) [
    | inl h ↦ ground (arith, h, map-touch_absent d k now xs c e)
    | inr (i, h) ↦ ground (arith, h, e, c x i h, eq_iff i.id k, map-touch_absent d k now xs c e)
  ]

  -- A read stamps the item that it returns, and moves nothing.
  pub view-get :
      (s : ContextStore F) (k : String) (now : F) (w : String)
      → IsConsistent s
      → view (get s k now).0 w ≡ map (touch_at k now) (view s w)
  unfolding view get
  view-get s k now w c = elim (Option-cases (Dict.get s.items k)) [
    | inl e ↦ rw (e, get) (map-touch_absent s.items k now (ids_of s w) c.keyed e)
    | inr (i, e) ↦ rw (e, get) (present-touch s.items k i now (ids_of s w) c.keyed e)
  ]

  -- The token total of a workflow is that of its list.
  pub total_tokens_lem :
      (s : ContextStore F) (w : String) → total_tokens s w ≡ sum_by (λ i. i.token_count) (view s w)
  unfolding total_tokens view
  total_tokens_lem s w = refl

  -- A fresh item adds its tokens to the total of its workflow.
  pub total_tokens-add :
      (s : ContextStore F) (item : ContextItem F) (w : String)
      → IsConsistent s
      → Dict.get s.items item.id ≡ none
      → truthy item.workflow_id ≡ some w
      → total_tokens (add s item) w ≡ total_tokens s w + item.token_count
  total_tokens-add s item w c fresh t = ground (
    arith,
    total_tokens_lem s w,
    total_tokens_lem (add s item) w,
    view-add s item w c fresh,
    t,
    eq_refl w,
    sum_by-append (λ (i : ContextItem F). i.token_count) (view s w) (item ∷ []),
  )
