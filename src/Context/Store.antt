-- ===== src/Context/Store.antt =====
-- context/store.py. `items_recorded` is the counter CONTEXT_ITEMS_RECORDED of gateway/metrics.py.
-- Items are values here: `get`, which touches the shared object, writes the touched item back.
pub mod Invariant
pub mod Index
pub mod View
pub mod Log
pub mod Refinement
use fleet_llm_inference.Common.{
  ℕ, zero, ◌+◌, String, Bool, true, false, Option, none, some, List, [], ◌∷◌, ◌++◌, length, keep,
  sum_by, remove_first, truthy,
}
use fleet_llm_inference.Dict
use fleet_llm_inference.Dict.{Dict}
use fleet_llm_inference.Context.Models.{ContextType, same_type, ContextItem, touch}

pub record ContextStore (F : Type 0) : Type 0 where
  pub items : Dict (ContextItem F)
  pub by_workflow : Dict (List String)
  pub items_recorded : ℕ

-- `self._by_workflow.get(workflow_id, [])`
abbrev pub or_empty : Option (List String) → List String
or_empty none = []
or_empty (some ids) = ids

-- Adds the id to its workflow's list, which a `defaultdict` creates.
unfoldable pub index : Option String → String → Dict (List String) → Dict (List String)
index none id by_workflow = by_workflow
index (some workflow_id) id by_workflow =
    Dict.put by_workflow workflow_id (or_empty (Dict.get by_workflow workflow_id) ++ id ∷ [])

unfoldable pub unindex : Option String → String → Dict (List String) → Dict (List String)
unindex none id by_workflow = by_workflow
unindex (some workflow_id) id by_workflow = elim (Dict.get by_workflow workflow_id) [
  | none ↦ by_workflow
  | some ids ↦ Dict.put by_workflow workflow_id (remove_first id ids)
]

module _ {F : Type 0} where
  unfoldable pub init : ContextStore F
  init = record { items = Dict.empty; by_workflow = Dict.empty; items_recorded = 0 }

  abbrev pub ids_of : ContextStore F → String → List String
  ids_of s workflow_id = or_empty (Dict.get s.by_workflow workflow_id)

  -- `[self._items[i] for i in ids if i in self._items]`
  unfoldable pub present : Dict (ContextItem F) → List String → List (ContextItem F)
  present items [] = []
  present items (i ∷ ids) = elim (Dict.get items i) [
    | none ↦ present items ids
    | some item ↦ item ∷ present items ids
  ]

  unfoldable pub of_type : Option ContextType → List (ContextItem F) → List (ContextItem F)
  of_type none items = items
  of_type (some type) items = keep (λ i. same_type i.type type) items

  unfoldable pub pop_all : List String → Dict (ContextItem F) → Dict (ContextItem F)
  pop_all [] items = items
  pop_all (id ∷ ids) items = pop_all ids (Dict.pop items id)

  unfoldable pub add : ContextStore F → ContextItem F → ContextStore F
  unfolding index
  add s item = record {
    items = Dict.put s.items item.id item;
    by_workflow = index (truthy item.workflow_id) item.id s.by_workflow;
    items_recorded = s.items_recorded + 1;
  }

  unfoldable pub get : ContextStore F → String → F → ContextStore F × Option (ContextItem F)
  unfolding touch
  get s item_id now = elim (Dict.get s.items item_id) [
    | none ↦ (s, none)
    | some item ↦
        (record s { items = Dict.put s.items item_id (touch item now) }, some (touch item now))
  ]

  unfoldable pub list_for_workflow :
      ContextStore F → String → Option ContextType → List (ContextItem F)
  unfolding of_type present
  list_for_workflow s workflow_id type = of_type type (present s.items (ids_of s workflow_id))

  unfoldable pub delete : ContextStore F → String → ContextStore F × Bool
  unfolding unindex
  delete s item_id = elim (Dict.get s.items item_id) [
    | none ↦ (s, false)
    | some item ↦ (
      record s {
        items = Dict.pop s.items item_id;
        by_workflow = unindex (truthy item.workflow_id) item_id s.by_workflow;
      },
      true,
    )
  ]

  unfoldable pub clear_workflow : ContextStore F → String → ContextStore F × ℕ
  unfolding pop_all
  clear_workflow s workflow_id =
      let ids = ids_of s workflow_id in
      (
        record s { items = pop_all ids s.items; by_workflow = Dict.pop s.by_workflow workflow_id },
        length ids,
      )

  unfoldable pub total_tokens : ContextStore F → String → ℕ
  unfolding list_for_workflow
  total_tokens s workflow_id = sum_by (λ i. i.token_count) (list_for_workflow s workflow_id none)
