-- ===== src/Context/Manager.antt =====
-- context/manager.py. `during` is what other tasks do to the store while the summarizer is awaited;
-- limits on the number of items are not negative.
pub mod Replace
pub mod Tokens
pub mod Oldest
pub mod Trigger
pub mod Outcome
use fleet_llm_inference.Common.{
  ℕ, ◌-◌, ◌≤◌, String, Bool, true, false, Option, none, some, List, [], ◌∷◌, length, take, leb, ltb,
  if◌then◌else◌,
}
use fleet_llm_inference.Common.Int.{ℤ, pos, negsuc}
use fleet_llm_inference.Common.Floats.{Floats}
use fleet_llm_inference.Common.Sort.{sorted}
use fleet_llm_inference.Common.Raises.{Result, ok, raised, value_error, ◌>>=◌}
use fleet_llm_inference.Dict.{Dict}
use fleet_llm_inference.Context.Models.{ContextType, ContextItem, Stamp, conversation, post_init}
use fleet_llm_inference.Context.Store
use fleet_llm_inference.Context.Store.{ContextStore, of_type}
use fleet_llm_inference.Context.Selection.{SelectionResult, select_context}
use fleet_llm_inference.Context.Compression.{CompressionResult, compress_items, tokens_saved}

-- Increments of the counters of gateway/metrics.py.
pub data Metric : Type 0 where
  context_compressions : Metric
  context_tokens_saved : ℕ → Metric

module _ {F : Type 0} where
  unfoldable pub get_candidate_context : ContextStore F → String → List (ContextItem F)
  unfolding Store.list_for_workflow
  get_candidate_context s workflow_id = Store.list_for_workflow s workflow_id none

  unfoldable pub delete_all : ContextStore F → List (ContextItem F) → ContextStore F
  delete_all s [] = s
  delete_all s (i ∷ items) = delete_all (Store.delete s i.id).0 items

  -- The originals give way to the summary.
  unfoldable pub replace : ContextStore F → CompressionResult F → ContextStore F
  unfolding delete_all
  replace s result = Store.add (delete_all s result.original_items) result.summary_item

  abbrev pub first_of_all : Option ℕ → List (ContextItem F) → List (ContextItem F)
  first_of_all none items = items
  first_of_all (some n) items = take n items

  -- The store after the summarizer has returned or raised.
  unfoldable pub finish :
      ContextStore F
      → Result (CompressionResult F)
      → ContextStore F × Result (Option (CompressionResult F))
  unfolding replace
  finish s (ok result) = (replace s result, ok (some result))
  finish s (raised e) = (s, raised e)

  -- The increments of the counters after a compression that has saved so many tokens: a counter raises
  -- where it is incremented by less than 0, as it is for a summary that is longer than its originals.
  abbrev pub counted_as :
      CompressionResult F → ℤ → Result (Option (CompressionResult F)) × List Metric
  counted_as result (pos n) = (ok (some result), context_compressions ∷ context_tokens_saved n ∷ [])
  counted_as result (negsuc n) = (raised value_error, context_compressions ∷ [])

  unfoldable pub count_compression :
      Result (Option (CompressionResult F)) → Result (Option (CompressionResult F)) × List Metric
  unfolding tokens_saved
  count_compression (ok (some result)) = counted_as result (tokens_saved result)
  count_compression (ok none) = (ok none, [])
  count_compression (raised e) = (raised e, [])

module _ {F : Type 0} (ops : Floats F) where
  unfoldable pub new_item :
      String
      → ContextType
      → Option String
      → Option String
      → Option String
      → F
      → Stamp F
      → ContextItem F
  unfolding post_init
  new_item content type workflow_id agent_id source importance stamp = post_init (record {
    type = type;
    content = content;
    source = source;
    agent_id = agent_id;
    workflow_id = workflow_id;
    importance = importance;
    relevance = ops.literal 5 10;
    artifact_id = none;
    id = stamp.id;
    token_count = 0;
    created_at = stamp.created_at;
    last_accessed_at = stamp.last_accessed_at;
  })

  unfoldable pub record_item :
      ContextStore F
      → String
      → ContextType
      → Option String
      → Option String
      → Option String
      → F
      → Stamp F
      → ContextStore F × ContextItem F
  unfolding new_item
  record_item s content type workflow_id agent_id source importance stamp =
      let item = new_item content type workflow_id agent_id source importance stamp in
      (Store.add s item, item)

  unfoldable pub get_budgeted_context :
      ContextStore F → String → ℕ → String → Result (SelectionResult F)
  get_budgeted_context s workflow_id budget_tokens policy =
      select_context ops (get_candidate_context s workflow_id) budget_tokens policy none

  abbrev pub older : ContextItem F → ContextItem F → Bool
  older a b = ops.less a.created_at b.created_at

  -- The items that a compression takes: the oldest ones, of one type where it is given.
  unfoldable pub oldest :
      ContextStore F → String → Option ℕ → Option ContextType → List (ContextItem F)
  unfolding get_candidate_context
  oldest s workflow_id max_items context_type =
      first_of_all max_items
        (sorted older (of_type context_type (get_candidate_context s workflow_id)))

  unfoldable pub compress_old_context :
      ContextStore F
      → (ContextStore F → ContextStore F)
      → String
      → (String → Result String)
      → Option ℕ
      → Option ContextType
      → Stamp F
      → ContextStore F × Result (Option (CompressionResult F))
  unfolding oldest finish
  compress_old_context s during workflow_id summarizer max_items context_type stamp =
      elim (oldest s workflow_id max_items context_type) [
        | [] ↦ (s, ok none)
        | i ∷ items ↦
            finish (during s)
              (compress_items ops (i ∷ items) summarizer (some workflow_id) none stamp)
      ]

  unfoldable pub compress_if_over_budget :
      ContextStore F
      → (ContextStore F → ContextStore F)
      → String
      → (String → Result String)
      → ℕ
      → ℕ
      → Stamp F
      → ContextStore F × Result (Option (CompressionResult F)) × List Metric
  compress_if_over_budget s during workflow_id summarizer threshold_tokens keep_recent stamp =
      let conversation_count = length (Store.list_for_workflow s workflow_id (some conversation)) in
      let old_count = conversation_count - keep_recent in
      if leb (Store.total_tokens s workflow_id) threshold_tokens
      then (s, ok none, [])
      else if ltb old_count 2
      then (s, ok none, [])
      else (let (s', result) =
            compress_old_context s during workflow_id summarizer (some old_count)
              (some conversation) stamp in
          let (counted, metrics) = count_compression result in (s', counted, metrics))
