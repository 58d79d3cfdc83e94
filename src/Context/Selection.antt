-- ===== src/Context/Selection.antt =====
-- context/selection.py. Budgets are not negative.
pub mod Budget
pub mod Total
pub mod Order
use mathlib.Core.List.{reverse}
use fleet_llm_inference.Common.{
  ℕ, zero, ◌+◌, ◌-◌, String, Bool, true, false, not, Option, none, some, List, [], ◌∷◌, ◌++◌, map,
  ◌==◌, eqb, if◌then◌else◌, sum_by, elem,
}
use fleet_llm_inference.Common.Floats.{Floats, minimum, maximum}
use fleet_llm_inference.Common.Sort.{sorted}
use fleet_llm_inference.Common.Packing.{Pack, pack}
use fleet_llm_inference.Common.Raises.{
  Result, ok, raised, value_error, zero_division, ◌>>=◌, or_key_error, map_raising,
}
use fleet_llm_inference.Dict
use fleet_llm_inference.Dict.{Dict}
use fleet_llm_inference.Context.Models.{ContextItem}

unfoldable pub policies : List String
policies = "full" ∷ "recent" ∷ "relevance" ∷ "budget_aware" ∷ "hybrid" ∷ []

pub record SelectionResult (F : Type 0) : Type 0 where
  pub selected : List (ContextItem F)
  pub discarded : List (ContextItem F)
  pub policy : String
  pub budget_tokens : ℕ
  pub candidate_tokens : ℕ
  pub selected_tokens : ℕ

abbrev pub tokens_of : {F : Type 0} → ContextItem F → ℕ
tokens_of i = i.token_count

module _ {F : Type 0} where
  unfoldable pub selection_result :
      List (ContextItem F) → List (ContextItem F) → String → ℕ → SelectionResult F
  selection_result selected discarded policy budget_tokens = record {
    selected = selected;
    discarded = discarded;
    policy = policy;
    budget_tokens = budget_tokens;
    candidate_tokens = sum_by tokens_of selected + sum_by tokens_of discarded;
    selected_tokens = sum_by tokens_of selected;
  }

  unfoldable pub tokens_saved : SelectionResult F → ℕ
  tokens_saved r = r.candidate_tokens - r.selected_tokens

module _ {F : Type 0} (ops : Floats F) where
  open ops use {literal, of_int, add, sub, mul, div, less, same}

  unfoldable pub default_weights : Dict F
  default_weights =
      Dict.put (Dict.put (Dict.put Dict.empty "relevance" (literal 4 10)) "recency" (literal 3 10))
        "importance" (literal 3 10)

  -- `{i.id: f(i) for i in items}`
  unfoldable pub by_id : (ContextItem F → F) → List (ContextItem F) → Dict F → Dict F
  by_id f [] d = d
  by_id f (i ∷ items) d = by_id f items (Dict.put d i.id (f i))

  unfoldable pub recency_scores : List (ContextItem F) → Dict F
  unfolding minimum maximum by_id
  recency_scores [] = Dict.empty
  recency_scores (i ∷ items) =
      let lo = minimum less i.created_at (map (λ (j : ContextItem F). j.created_at) items) in
      let hi = maximum less i.created_at (map (λ (j : ContextItem F). j.created_at) items) in
      if same hi lo
      then by_id (λ j. literal 1 1) (i ∷ items) Dict.empty
      else by_id (λ j. div (sub j.created_at lo) (sub hi lo)) (i ∷ items) Dict.empty

  unfoldable pub hybrid_score : ContextItem F → F → Dict F → Result F
  hybrid_score item recency weights = do
    relevance ← or_key_error (Dict.get weights "relevance")
    recent ← or_key_error (Dict.get weights "recency")
    importance ← or_key_error (Dict.get weights "importance")
    ok (
        add (add (mul relevance item.relevance) (mul recent recency))
          (mul importance item.importance))

  -- `value / item.token_count`
  unfoldable pub density : F → ContextItem F → Result F
  density value item =
      if eqb item.token_count 0
      then raised zero_division
      else ok (div value (of_int item.token_count))

  -- An item with its sort key: `sorted` computes each key once, before it compares.
  unfoldable pub keyed : (ContextItem F → Result F) → ContextItem F → Result (F × ContextItem F)
  keyed key item = do k ← key item; ok (k, item)

  abbrev pub comes_before : Bool → F × ContextItem F → F × ContextItem F → Bool
  comes_before true a b = less b.0 a.0
  comes_before false a b = less a.0 b.0

  unfoldable pub sort_items :
      (ContextItem F → Result F) → Bool → List (ContextItem F) → Result (List (ContextItem F))
  unfolding keyed
  sort_items key reversed items = do
    pairs ← map_raising (keyed key) items
    ok (map (λ p. p.1) (sorted (comes_before reversed) pairs))

  unfoldable pub greedy_pack :
      List (ContextItem F) → ℕ → (ContextItem F → Result F) → Bool → Result (Pack (ContextItem F))
  greedy_pack items budget_tokens key reversed = do
    ordered ← sort_items key reversed items
    ok (pack tokens_of ordered budget_tokens)

  -- `weights or DEFAULT_WEIGHTS`: an empty dict is false.
  unfoldable pub or_default : Option (Dict F) → Dict F
  or_default none = default_weights
  or_default (some weights) = elim weights.entries [ [] ↦ default_weights | x ∷ xs ↦ weights ]

  unfoldable pub hybrid_key : Dict F → Dict F → ContextItem F → Result F
  unfolding hybrid_score density
  hybrid_key recency weights i = do
    r ← or_key_error (Dict.get recency i.id)
    score ← hybrid_score i r weights
    density score i

  -- The sort key of a policy, and whether the order is reversed.
  unfoldable pub key_of :
      String → Option (Dict F) → List (ContextItem F) → (ContextItem F → Result F) × Bool
  unfolding hybrid_key density
  key_of policy weights items =
      if policy == "full"
      then (λ i. ok i.created_at, false)
      else if policy == "recent"
      then (λ i. ok i.created_at, true)
      else if policy == "relevance"
      then (λ i. ok i.relevance, true)
      else if policy == "budget_aware"
      then (λ i. density i.importance i, true)
      else (hybrid_key (recency_scores items) (or_default weights), true)

  unfoldable pub select_context :
      List (ContextItem F) → ℕ → String → Option (Dict F) → Result (SelectionResult F)
  unfolding key_of greedy_pack
  select_context items budget_tokens policy weights =
      if elem policy policies
      then (let (key, reversed) = key_of policy weights items in
          do
            p ← greedy_pack items budget_tokens key reversed
            ok (selection_result p.selected p.discarded policy budget_tokens))
      else raised value_error
