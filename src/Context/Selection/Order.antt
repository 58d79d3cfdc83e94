-- ===== src/Context/Selection/Order.antt =====
-- The order in which context/selection.py takes items.
use fleet_llm_inference.Common.{
  ℕ, String, ◌≡◌, refl, subst, ap, ◌∙◌, Bool, true, false, Option, List, [], ◌∷◌, map, arith,
}
use fleet_llm_inference.Common.Floats.{Floats, IsOrder}
use fleet_llm_inference.Common.Sort.{sorted, IsSorted, sorted-IsSorted, sorted-map}
use fleet_llm_inference.Common.Packing.{Pack, pack, pack-IsSorted}
use fleet_llm_inference.Common.Raises.{ok, ◌>>=◌, map_raising, bind_ok, ok-injective}
use fleet_llm_inference.Dict.{Dict}
use fleet_llm_inference.Context.Models.{ContextItem}
use fleet_llm_inference.Context.Selection.{
  SelectionResult, selection_result, tokens_of, comes_before, keyed, sort_items, greedy_pack,
  select_context, policies,
}

module _ {F : Type 0} (ops : Floats F) where
  -- `a` is to be taken before `b` by the value, in ascending or in descending order.
  abbrev pub by_value : (ContextItem F → F) → Bool → ContextItem F → ContextItem F → Bool
  by_value value reversed a b = comes_before ops reversed (value a, a) (value b, b)

  abbrev pairs_of : (ContextItem F → F) → List (ContextItem F) → List (F × ContextItem F)
  pairs_of value = map (λ i. (value i, i))

  keys_ok :
      (value : ContextItem F → F) (items : List (ContextItem F))
      → map_raising (keyed ops (λ i. ok (value i))) items ≡ ok (pairs_of value items)
  unfolding map_raising keyed
  keys_ok value [] = refl
  keys_ok value (i ∷ items) = rw (keys_ok value items) refl

  map-pairs_of :
      (value : ContextItem F → F) (items : List (ContextItem F))
      → map (λ p. p.1) (pairs_of value items) ≡ items
  map-pairs_of value [] = refl
  map-pairs_of value (i ∷ items) = ap (◌∷◌ i) (map-pairs_of value items)

  -- Where the keys cannot fail, the order is that of the built-in sort by the key.
  pub sort_items_lem :
      (value : ContextItem F → F) (reversed : Bool) (items : List (ContextItem F))
      → sort_items ops (λ i. ok (value i)) reversed items
        ≡ ok (sorted (by_value value reversed) items)
  unfolding sort_items
  sort_items_lem value reversed items = rw (keys_ok value items) (
      ap ok (
        ap (map (λ p. p.1)) (sorted-map (comes_before ops reversed) (λ i. (value i, i)) items)
        ∙ map-pairs_of value (sorted (by_value value reversed) items)))

  -- The packed items stand in the order of the key.
  by_value-IsSorted :
      (value : ContextItem F → F) (reversed : Bool) (items : List (ContextItem F))
      → IsOrder ops
      → IsSorted (by_value value reversed) (sorted (by_value value reversed) items)
  by_value-IsSorted value true items o =
      sorted-IsSorted (by_value value true) (λ i. o.irrefl (value i))
        (λ x y z h k. o.trans (value z) (value y) (value x) k h)
        (λ x y z h k. ground (arith, o.weak (value z) (value y) (value x))) items
  by_value-IsSorted value false items o =
      sorted-IsSorted (by_value value false) (λ i. o.irrefl (value i))
        (λ x y z. o.trans (value x) (value y) (value z))
        (λ x y z. o.weak (value x) (value y) (value z)) items

  greedy_pack-IsSorted :
      (value : ContextItem F → F) (reversed : Bool) (items : List (ContextItem F)) (budget : ℕ)
      {p : Pack (ContextItem F)}
      → IsOrder ops
      → greedy_pack ops items budget (λ i. ok (value i)) reversed ≡ ok p
      → IsSorted (by_value value reversed) p.selected
  unfolding greedy_pack
  greedy_pack-IsSorted value reversed items budget o h =
      let e : ok (pack tokens_of (sorted (by_value value reversed) items) budget) ≡ ok _ =
        rw (sort_items_lem value reversed items) at h in
      subst (λ (q : Pack (ContextItem F)). IsSorted (by_value value reversed) q.selected)
        (ok-injective e)
        (pack-IsSorted (by_value value reversed) tokens_of _ budget
          (by_value-IsSorted value reversed items o))

  selected-IsSorted :
      (value : ContextItem F → F) (reversed : Bool) (items : List (ContextItem F)) (budget : ℕ)
      (policy : String) (r : SelectionResult F)
      → IsOrder ops
      → (do
        p ← greedy_pack ops items budget (λ i. ok (value i)) reversed
        ok (selection_result p.selected p.discarded policy budget))
        ≡ ok r
      → IsSorted (by_value value reversed) r.selected
  unfolding selection_result
  selected-IsSorted value reversed items budget policy r o h =
      let (p, hp, e) = bind_ok (greedy_pack ops items budget (λ i. ok (value i)) reversed) _ h in
      subst (λ (q : SelectionResult F). IsSorted (by_value value reversed) q.selected)
        (ok-injective e) (greedy_pack-IsSorted value reversed items budget o hp)

  -- For floats that are ordered, what the policies `full`, `recent` and `relevance` select stands in chronological order, in
  -- reverse chronological order, and by falling relevance.
  pub select_context-IsSorted :
      (items : List (ContextItem F)) (budget : ℕ) (weights : Option (Dict F))
      (r : SelectionResult F)
      → IsOrder ops
      → (select_context ops items budget "full" weights ≡ ok r
          → IsSorted (by_value (λ i. i.created_at) false) r.selected)
        × (select_context ops items budget "recent" weights ≡ ok r
            → IsSorted (by_value (λ i. i.created_at) true) r.selected)
        × (select_context ops items budget "relevance" weights ≡ ok r
            → IsSorted (by_value (λ i. i.relevance) true) r.selected)
  unfolding select_context policies selection_result
  select_context-IsSorted items budget weights r o = (
    λ h. selected-IsSorted (λ i. i.created_at) false items budget "full" r o h,
    λ h. selected-IsSorted (λ i. i.created_at) true items budget "recent" r o h,
    λ h. selected-IsSorted (λ i. i.relevance) true items budget "relevance" r o h,
  )
