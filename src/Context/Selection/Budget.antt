-- ===== src/Context/Selection/Budget.antt =====
-- Every policy of context/selection.py packs within the budget.
use mathlib.Core.List.Perm
use fleet_llm_inference.Common.{
  ℕ, ◌+◌, ◌≤◌, ◌<◌, String, ◌≡◌, refl, sym, ◌∙◌, inl, inr, Bool, Option, List, [], ◌∷◌, ◌++◌, map,
  Perm, arith, sum_by, sum_by-append, sum_by-perm, elem, All, All-map, subst, Bool-cases,
}
use fleet_llm_inference.Common.Floats.{Floats}
use fleet_llm_inference.Common.Sort.{sorted, sorted-perm}
use fleet_llm_inference.Common.Packing.{Pack, pack, pack-IsPacked}
use fleet_llm_inference.Common.Raises.{
  Result, ok, raised, value_error, map_raising, bind_ok, ok-injective,
}
use fleet_llm_inference.Dict.{Dict}
use fleet_llm_inference.Context.Models.{ContextItem}
use fleet_llm_inference.Context.Selection.{
  SelectionResult, selection_result, tokens_of, tokens_saved, comes_before, keyed, sort_items,
  greedy_pack, key_of, select_context, policies,
}

module _ {F : Type 0} where
  -- `r` is a packing of `items` under the budget: it selects no more than fits, every candidate is
  -- either selected or discarded, and no discarded item would still fit.
  pub record IsSelection (items : List (ContextItem F)) (budget : ℕ) (r : SelectionResult F)
      : Type 0 where
    pub within : r.selected_tokens ≤ budget
    pub complete : Perm (r.selected ++ r.discarded) items
    pub maximal : All (λ i. budget < r.selected_tokens + tokens_of i) r.discarded
    pub counted : r.selected_tokens ≡ sum_by tokens_of r.selected
    pub candidates : r.candidate_tokens ≡ sum_by tokens_of items
    pub saved : tokens_saved r ≡ sum_by tokens_of r.discarded

module _ {F : Type 0} (ops : Floats F) where
  keyed-map :
      (key : ContextItem F → Result F) (items : List (ContextItem F))
      {pairs : List (F × ContextItem F)}
      → map_raising (keyed ops key) items ≡ ok pairs
      → map (λ p. p.1) pairs ≡ items
  unfolding map_raising keyed
  keyed-map key [] h = cc
  keyed-map key (i ∷ items) h =
      let (p, hp, rest) = bind_ok (keyed ops key i) _ h in
      let (k, hk, hi) = bind_ok (key i) _ hp in
      let (ps, hps, last) = bind_ok (map_raising (keyed ops key) items) _ rest in
      ground (arith, keyed-map key items hps)

  sort_items-perm :
      (key : ContextItem F → Result F) (reversed : Bool) (items : List (ContextItem F))
      {ordered : List (ContextItem F)}
      → sort_items ops key reversed items ≡ ok ordered
      → Perm ordered items
  unfolding sort_items
  sort_items-perm key reversed items h =
      let (pairs, hp, e) = bind_ok (map_raising (keyed ops key) items) _ h in
      let perm : Perm (map (λ p. p.1) (sorted (comes_before ops reversed) pairs))
          (map (λ p. p.1) pairs) =
        Perm.map (λ p. p.1) (sorted-perm (comes_before ops reversed) pairs) in
      subst (λ l. Perm l items) (ok-injective e) (rw (keyed-map key items hp) at perm)

  selection_result-IsSelection :
      (items ordered : List (ContextItem F)) (budget : ℕ) (policy : String)
      → Perm ordered items
      → let p = pack tokens_of ordered budget in
        IsSelection items budget (selection_result p.selected p.discarded policy budget)
  unfolding selection_result tokens_saved
  selection_result-IsSelection items ordered budget policy perm =
      let v = pack-IsPacked tokens_of ordered budget in
      let p = pack tokens_of ordered budget in
      let c : Perm (p.selected ++ p.discarded) items = Perm.trans v.complete perm in
      record {
        within = omega (arith, v.spent);
        complete = c;
        maximal =
            All-map (λ i. p.remaining < tokens_of i) _ p.discarded (λ i h. omega (arith, v.spent))
              v.maximal;
        counted = refl;
        candidates = sym (sum_by-append tokens_of p.selected p.discarded) ∙ sum_by-perm tokens_of c;
        saved = omega arith;
      }

  -- Whatever the policy and the weights, a selection that is made is a packing of the items under the
  -- budget, with the right counts.
  pub select_context-IsSelection :
      (items : List (ContextItem F)) (budget : ℕ) (policy : String) (weights : Option (Dict F))
      (r : SelectionResult F)
      → select_context ops items budget policy weights ≡ ok r
      → IsSelection items budget r
  unfolding select_context greedy_pack
  select_context-IsSelection items budget policy weights r h =
      elim (Bool-cases (elem policy policies)) [
        | inl known ↦
            let (p, hp, e) =
              bind_ok
                (greedy_pack ops items budget (key_of ops policy weights items).0
                  (key_of ops policy weights items).1)
                _ (rw known at h) in
            let (ordered, ho, eo) =
              bind_ok
                (sort_items ops (key_of ops policy weights items).0
                  (key_of ops policy weights items).1 items)
                _ hp in
            subst (IsSelection items budget) (ok-injective e) (
              subst
                (λ (q : Pack (ContextItem F)).
                  IsSelection items budget (selection_result q.selected q.discarded policy budget))
                (ok-injective eo)
                (selection_result-IsSelection items ordered budget policy
                  (sort_items-perm _ _ items ho)))
        | inr other ↦ let refused : raised value_error ≡ ok r = rw other at h in cc
      ]
