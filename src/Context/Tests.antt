-- ===== src/Context/Tests.antt =====
-- Concrete runs of the modules of context/.
use fleet_llm_inference.Common.{
  ℕ, String, ◌≡◌, refl, ◌≤◌, ◌≢◌, ◌⊎◌, ◌+◌, true, false, Option, none, some, List, [], ◌∷◌, ◌++◌,
  eq_iff, arith, All, elem, ◌<>◌,
}
use fleet_llm_inference.Common.Raises.{Exception, Result, ok, raised, value_error}
use fleet_llm_inference.Dict
use fleet_llm_inference.Dict.{Dict, lookup, write, without}
use fleet_llm_inference.Samples.{whole, whole-IsOrder, turn, stamp}
use fleet_llm_inference.Context.Models.{touch, same_type, ContextItem, post_init, estimate_tokens}
use fleet_llm_inference.Context.Store.{
  ContextStore, init, total_tokens, add, get, delete, index, list_for_workflow, present, of_type,
}
use fleet_llm_inference.Context.Store.Invariant.{IsConsistent}
use fleet_llm_inference.Context.Store.View.{view}
use fleet_llm_inference.Context.Store.Refinement.{
  step, Op, adds, gets, deletes, run, log_run, log_step, AreFresh, Represents, run-Represents,
  init-Represents,
}
use fleet_llm_inference.Context.Selection.{SelectionResult, select_context, policies}
use fleet_llm_inference.Context.Selection.Budget.{IsSelection, select_context-IsSelection}
use fleet_llm_inference.Context.Selection.Total.{select_context_total}
use fleet_llm_inference.Context.Selection.Order.{by_value, select_context-IsSorted}
use fleet_llm_inference.Common.Sort.{IsSorted, sorted, insert}
use fleet_llm_inference.Context.Compression.{
  CompressionResult, compress_items, compression_result, summary_of, tokens_saved,
}
use fleet_llm_inference.Context.Manager.{
  context_compressions, context_tokens_saved, count_compression, get_candidate_context, oldest,
  finish, compress_old_context, compress_if_over_budget, replace,
}
use fleet_llm_inference.Context.Manager.Replace.{others}
use fleet_llm_inference.Context.Manager.Outcome.{material, IsOldest, compress_old_context_total}
use fleet_llm_inference.Context.Manager.Tokens.{IsCompression, compress_old_context-total_tokens}
use fleet_llm_inference.Context.Manager.Trigger.{
  IsTrigger, Idle, Counts, compress_if_over_budget-IsTrigger,
}

abbrev calls : List (Op ℕ)
calls = adds (turn "a" 1) ∷ adds (turn "b" 2) ∷ gets "a" 4 ∷ deletes "b" ∷ adds (turn "c" 3) ∷ []

calls-AreFresh : AreFresh [] calls
unfolding log_step touch
calls-AreFresh = (refl, (refl, (tt, (tt, (refl, tt)))))

-- The store after the calls has the items of the log.
run-Represents_example : Represents (run init calls) (log_run [] calls)
run-Represents_example = run-Represents init [] calls init-Represents calls-AreFresh

abbrev items : List (ContextItem ℕ)
items = turn "a" 1 ∷ turn "b" 2 ∷ turn "c" 3 ∷ []

items-cost : All (λ (i : ContextItem ℕ). 1 ≤ i.token_count) items
items-cost = ground arith

select_context_total_example :
    (elem "recent" policies ≡ true
      → (r : SelectionResult ℕ) × (select_context whole items 7 "recent" none ≡ ok r))
    × (elem "recent" policies ≡ false
        → select_context whole items 7 "recent" none ≡ raised value_error)
select_context_total_example = select_context_total whole items 7 "recent" items-cost

known : elem "recent" policies ≡ true
unfolding policies
known = refl

abbrev recent : SelectionResult ℕ
recent = ((select_context_total whole items 7 "recent" items-cost).0 known).0

abbrev recent_lem : select_context whole items 7 "recent" none ≡ ok recent
recent_lem = ((select_context_total whole items 7 "recent" items-cost).0 known).1

select_context-IsSelection_example : IsSelection items 7 recent
select_context-IsSelection_example =
    select_context-IsSelection whole items 7 "recent" none recent recent_lem

select_context-IsSorted_example :
    (select_context whole items 7 "full" none ≡ ok recent
      → IsSorted (by_value whole (λ i. i.created_at) false) recent.selected)
    × (select_context whole items 7 "recent" none ≡ ok recent
        → IsSorted (by_value whole (λ i. i.created_at) true) recent.selected)
    × (select_context whole items 7 "relevance" none ≡ ok recent
        → IsSorted (by_value whole (λ i. i.relevance) true) recent.selected)
select_context-IsSorted_example = select_context-IsSorted whole items 7 none recent whole-IsOrder

abbrev store : ContextStore ℕ
store = run init calls

store-IsConsistent : IsConsistent store
store-IsConsistent = (run-Represents init [] calls init-Represents calls-AreFresh).consistent

abbrev summarize : String → Result String
summarize text = ok "brief"

abbrev unchanged : ContextStore ℕ → ContextStore ℕ
unchanged s = s

absent : Dict.get store.items "new" ≡ none
unfolding run step add get delete init index Dict.get Dict.put Dict.pop lookup write without
    Dict.empty
absent = refl

named : ◌≢◌ {A = String} "w" ""
named = λ e. ground (arith, eq_iff "w" "", e)

compress_old_context_total_example :
    let result = compress_old_context whole store unchanged "w" summarize (some 2) none stamp in
    (taken : List (ContextItem ℕ)) × IsOldest whole (of_type none (view store "w")) (some 2) taken
    × (((taken ≡ []) × (result ≡ (store, ok none)))
        ⊎ ((e : Exception) × (taken ≢ [])
            × (summarize (material taken) ≡ raised e)
            × (result ≡ (store, raised e)))
        ⊎ ((text : String) × (r : CompressionResult ℕ) × (s' : ContextStore ℕ) × (taken ≢ [])
            × (summarize (material taken) ≡ ok text)
            × (result ≡ (s', ok (some r)))
            × IsCompression taken "w" stamp.id r
            × (r.summary_item.content ≡ text)
            × (view s' "w" ≡ others taken (view store "w") ++ r.summary_item ∷ [])))
compress_old_context_total_example =
    compress_old_context_total whole store unchanged "w" summarize (some 2) none stamp whole-IsOrder
      store-IsConsistent absent named

abbrev result_of : Result (Option (CompressionResult ℕ)) → CompressionResult ℕ
result_of (ok (some r)) = r
result_of _ = record {
  original_items = [];
  summary_item = turn "none" 0;
  tokens_before = 0;
  tokens_after = 0;
}

abbrev compressed : CompressionResult ℕ
compressed = result_of (compress_old_context whole store unchanged "w" summarize none none stamp).1

compressed_lem :
    compress_old_context whole store unchanged "w" summarize none none stamp
    ≡ (replace store compressed, ok (some compressed))
unfolding compress_old_context finish compress_items oldest run step add get delete init sorted
    insert list_for_workflow present of_type index get_candidate_context Dict.get Dict.put Dict.pop
    lookup write without Dict.empty
compressed_lem = refl

grown : view store "w" ≡ view store "w" ++ []
unfolding view run step add get delete init list_for_workflow present of_type index Dict.get
    Dict.put Dict.pop lookup write without Dict.empty
grown = refl

compress_old_context-total_tokens_example :
    total_tokens (replace store compressed) "w" + compressed.tokens_before
    ≡ total_tokens store "w" + compressed.tokens_after
compress_old_context-total_tokens_example =
    compress_old_context-total_tokens whole store (replace store compressed) unchanged "w" summarize
      none none stamp [] compressed store-IsConsistent store-IsConsistent grown absent named
      compressed_lem

compress_if_over_budget-IsTrigger_example :
    let (s', result, metrics) =
      compress_if_over_budget whole store unchanged "w" summarize 4 0 stamp in
    Idle whole store unchanged s' result metrics
    ⊎ ((r : CompressionResult ℕ) × (text : String) × IsTrigger whole store "w" 4 0 r.original_items
        × (summarize (material r.original_items) ≡ ok text)
        × (r.summary_item.content ≡ text)
        × (s' ≡ replace store r)
        × Counts whole r result metrics)
compress_if_over_budget-IsTrigger_example =
    compress_if_over_budget-IsTrigger whole store unchanged "w" summarize 4 0 stamp whole-IsOrder

-- What a shorter summary saves is counted; a longer one raises.
saved :
    (compress_if_over_budget whole store unchanged "w" summarize 4 0 stamp).2
    ≡ context_compressions ∷ context_tokens_saved 5 ∷ []
unfolding compress_if_over_budget count_compression tokens_saved compress_old_context finish
    compress_items compression_result summary_of post_init estimate_tokens same_type oldest run step
    add get delete init sorted insert total_tokens list_for_workflow present of_type index
    get_candidate_context Dict.get Dict.put Dict.pop lookup write without Dict.empty
saved = refl

abbrev repeat_all : String → Result String
repeat_all text = ok (
    text <> text <> text
    <> "and this text goes on, and on, for longer than what it is a summary of")

not_saved :
    (compress_if_over_budget whole store unchanged "w" repeat_all 4 0 stamp).1 ≡ raised value_error
unfolding compress_if_over_budget count_compression tokens_saved compress_old_context finish
    compress_items compression_result summary_of post_init estimate_tokens same_type oldest run step
    add get delete init sorted insert total_tokens list_for_workflow present of_type index
    get_candidate_context Dict.get Dict.put Dict.pop lookup write without Dict.empty
not_saved = refl
