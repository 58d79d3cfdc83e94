-- ===== src/Context/Manager/Replace.antt =====
-- What a compression does to the list and to the token total of its workflow.
use fleet_llm_inference.Common.{
  String, ◌≡◌, refl, sym, ap, ◌∙◌, not, none, List, [], ◌∷◌, ◌++◌, map, arith, ◌==◌, if◌then◌else◌,
  elem, truthy, keep,
}
use fleet_llm_inference.Dict
use fleet_llm_inference.Dict.{get-pop}
use fleet_llm_inference.Context.Models.{ContextItem}
use fleet_llm_inference.Context.Store.{ContextStore, delete}
use fleet_llm_inference.Context.Store.Index.{names}
use fleet_llm_inference.Context.Store.Invariant.{IsConsistent, delete-IsConsistent}
use fleet_llm_inference.Context.Store.View.{view, view-add, view-delete}
use fleet_llm_inference.Context.Store.Refinement.{items-delete}
use fleet_llm_inference.Context.Compression.{CompressionResult}
use fleet_llm_inference.Context.Manager.{delete_all, replace}

module _ {F : Type 0} where
  abbrev pub ids : List (ContextItem F) → List String
  ids = map (λ i. i.id)

  -- The items of `xs` that are none of `gone`.
  abbrev pub others : List (ContextItem F) → List (ContextItem F) → List (ContextItem F)
  others gone = keep (λ i. not (elem i.id (ids gone)))

  pub others-cons :
      (g : ContextItem F) (gone xs : List (ContextItem F))
      → others gone (keep (λ i. not (i.id == g.id)) xs) ≡ others (g ∷ gone) xs
  others-cons g gone [] = refl
  others-cons g gone (x ∷ xs) = ground (arith, others-cons g gone xs)

  pub others-nil : (xs : List (ContextItem F)) → others [] xs ≡ xs
  others-nil [] = refl
  others-nil (x ∷ xs) = ap (◌∷◌ x) (others-nil xs)

  pub delete_all-IsConsistent :
      (s : ContextStore F) (gone : List (ContextItem F))
      → IsConsistent s
      → IsConsistent (delete_all s gone)
  unfolding delete_all
  delete_all-IsConsistent s [] c = c
  delete_all-IsConsistent s (g ∷ gone) c =
      delete_all-IsConsistent (delete s g.id).0 gone (delete-IsConsistent s g.id c)

  view-delete_all :
      (s : ContextStore F) (gone : List (ContextItem F)) (w : String)
      → IsConsistent s
      → view (delete_all s gone) w ≡ others gone (view s w)
  unfolding delete_all
  view-delete_all s [] w c = sym (others-nil (view s w))
  view-delete_all s (g ∷ gone) w c =
      view-delete_all (delete s g.id).0 gone w (delete-IsConsistent s g.id c)
      ∙ ap (others gone) (view-delete s g.id w c)
      ∙ others-cons g gone (view s w)

  items-delete_all :
      (s : ContextStore F) (gone : List (ContextItem F)) (k : String)
      → IsConsistent s
      → Dict.get s.items k ≡ none
      → Dict.get (delete_all s gone).items k ≡ none
  unfolding delete_all
  items-delete_all s [] k c h = h
  items-delete_all s (g ∷ gone) k c h =
      items-delete_all (delete s g.id).0 gone k (delete-IsConsistent s g.id c)
        (rw (items-delete s g.id k c, h) refl)

  -- The compressed items leave the workflow's list, every other item stays where it was, and the
  -- summary comes last; lists of other workflows lose only what was compressed.
  pub view-replace :
      (s : ContextStore F) (r : CompressionResult F) (w : String)
      → IsConsistent s
      → Dict.get s.items r.summary_item.id ≡ none
      → view (replace s r) w ≡ (
          if names (truthy r.summary_item.workflow_id) w
          then others r.original_items (view s w) ++ r.summary_item ∷ []
          else others r.original_items (view s w))
  unfolding replace
  view-replace s r w c fresh = rw (← view-delete_all s r.original_items w c) (
      view-add (delete_all s r.original_items) r.summary_item w
        (delete_all-IsConsistent s r.original_items c)
        (items-delete_all s r.original_items r.summary_item.id c fresh))
