-- ===== src/Experiments/Comparison.antt =====
-- What the strategies of benchmarks/experiments/context_budgeting.py select.
use mathlib.Core.List.{append-nil}
use fleet_llm_inference.Common.{
  ℕ, ◌+◌, ◌≤◌, ◌<◌, String, ◌<>◌, true, none, List, [], ◌∷◌, ◌++◌, map, join, length, Perm,
  length-perm, ◌≡◌, refl, sym, subst, elem, ap, arith, All, All-append, sum_by, sum_by-append,
  sum_by-perm,
}
use fleet_llm_inference.Common.Floats.{Floats}
use fleet_llm_inference.Common.Raises.{Result, ok}
use fleet_llm_inference.Context.Models.{ContextItem, estimate_tokens-pos, post_init}
use fleet_llm_inference.Context.Selection.{SelectionResult, tokens_of, policies}
use fleet_llm_inference.Context.Selection.Budget.{IsSelection, select_context-IsSelection}
use fleet_llm_inference.Context.Selection.Total.{select_context_total}
use fleet_llm_inference.Workers.Client.Requests.{Completion}
use fleet_llm_inference.Experiments.Budgeting.{
  StrategyOutcome, run_strategy, run, prompt_of, task_succeeded, build_context_pool, fillers,
  pool_item, file_item, filler_topics, task_prompt,
}

module _ {F : Type 0} where
  abbrev tokens : List (ContextItem F) → ℕ
  tokens items = sum_by tokens_of items

  -- Where everything fits, nothing is discarded.
  all-selected :
      (items : List (ContextItem F)) (budget : ℕ) (r : SelectionResult F)
      → IsSelection items budget r
      → tokens items ≤ budget
      → r.discarded ≡ []
  all-selected items budget r h fits = none_left r.discarded refl
    where
      none_left : (ds : List (ContextItem F)) → ds ≡ r.discarded → r.discarded ≡ []
      none_left [] e = sym e
      none_left (d ∷ ds) e = absurd (
          omega (
            arith,
            fits,
            h.counted,
            sum_by-perm tokens_of h.complete,
            sum_by-append tokens_of r.selected r.discarded,
            ap (λ l. sum_by tokens_of l) e,
            (subst (All (λ i. budget < r.selected_tokens + tokens_of i)) (sym e) h.maximal).0,
          ))

  everything :
      (items : List (ContextItem F)) (budget : ℕ) (r : SelectionResult F)
      → IsSelection items budget r
      → tokens items ≤ budget
      → Perm r.selected items
  everything items budget r h fits =
      let nothing_left = all-selected items budget r h fits in
      let whole = ap (λ l. r.selected ++ l) nothing_left in
      rw (append-nil r.selected) at (rw whole at h.complete)

module _ {F : Type 0} (ops : Floats F) (lower : String → String)
    (generate : String → Result (Completion F String) × F) where
  -- The worker answers every prompt.
  abbrev pub Answers : Type 0
  Answers = (prompt : String) → (c : Completion F String) × ((generate prompt).0 ≡ ok c)

  -- What a strategy has sent, and what it tells of it: the contents of the items that it has selected
  -- within its budget, two line ends apart, and the task's prompt after them.
  pub record Sends (policy : String) (budget : ℕ) (items : List (ContextItem F))
      (s : StrategyOutcome F) : Type 0 where
    pub selection : SelectionResult F
    pub completion : Completion F String
    pub chosen : IsSelection items budget selection
    pub sent :
        (generate (
          join "\n\n" (map (λ (i : ContextItem F). i.content) selection.selected)
          <> ("\n\n" <> task_prompt))).0
        ≡ ok completion
    pub answer : s.response ≡ completion.answer
    pub success : s.task_success ≡ task_succeeded lower completion.answer
    pub actual : s.tokens_actual ≡ completion.prompt_tokens
    pub estimated : s.tokens_estimated ≡ sum_by tokens_of selection.selected
    pub number : s.items_selected ≡ length selection.selected
    pub total : s.items_total ≡ length items
    pub under : (s.policy ≡ policy) × (s.budget_tokens ≡ budget)

  run_strategy-Sends :
      Answers
      → (policy : String) (budget : ℕ) (items : List (ContextItem F)) → elem policy policies ≡ true
      → All (λ (i : ContextItem F). 1 ≤ i.token_count) items
      → (s : StrategyOutcome F) × (run_strategy ops lower generate policy budget items ≡ ok s)
        × Sends policy budget items s
  unfolding run_strategy
  run_strategy-Sends answers policy budget items known priced =
      let (r, e) = (select_context_total ops items budget policy priced).0 known in
      let h = select_context-IsSelection ops items budget policy none r e in
      let (c, q) = answers (prompt_of ops lower generate r.selected) in
      (
        record {
          policy = policy;
          budget_tokens = budget;
          items_selected = length r.selected;
          items_total = length items;
          tokens_estimated = r.selected_tokens;
          tokens_actual = c.prompt_tokens;
          latency_s = ops.round (generate (prompt_of ops lower generate r.selected)).1 2;
          response = c.answer;
          task_success = task_succeeded lower c.answer;
        },
        rw e (rw q refl),
        record {
          selection = r;
          completion = c;
          chosen = h;
          sent = q;
          answer = refl;
          success = refl;
          actual = refl;
          estimated = h.counted;
          number = refl;
          total = refl;
          under = (refl, refl);
        },
      )

  fillers-priced :
      (ids : ℕ → String) (accessed : ℕ → F) (workflow_id : String) (i : ℕ) (topics : List String)
      → All
          (λ (item : ContextItem F). 1 ≤ item.token_count)
          (fillers ops ids accessed workflow_id i topics)
  unfolding fillers pool_item post_init
  fillers-priced ids accessed workflow_id i [] = tt
  fillers-priced ids accessed workflow_id i (topic ∷ topics) =
      (estimate_tokens-pos _, fillers-priced ids accessed workflow_id (i + 1) topics)

  pool-priced :
      (ids : ℕ → String) (accessed : ℕ → F) (calculator_content workflow_id : String)
      → All
          (λ (item : ContextItem F). 1 ≤ item.token_count)
          (build_context_pool ops ids accessed calculator_content workflow_id)
  unfolding build_context_pool pool_item file_item post_init
  pool-priced ids accessed calculator_content workflow_id =
      All-append (λ (item : ContextItem F). 1 ≤ item.token_count)
        (fillers ops ids accessed workflow_id 0 filler_topics)
        (file_item ops ids accessed calculator_content workflow_id ∷ [])
        (fillers-priced ids accessed workflow_id 0 filler_topics) (estimate_tokens-pos _, tt)

  -- Where the worker answers and the pool costs no more than a million tokens, the experiment ends. Both
  -- strategies send the contents of what they have selected and the task's prompt, and report the answer
  -- to that prompt: the full strategy has selected the whole pool, and the hybrid one items of the pool
  -- within its budget, to which no other item of the pool could be added, estimated at no more tokens
  -- than the full strategy's.
  pub run-compares :
      Answers
      → (ids : ℕ → String) (accessed : ℕ → F) (calculator_content workflow_id : String) (budget : ℕ)
      → let items = build_context_pool ops ids accessed calculator_content workflow_id in
        sum_by tokens_of items ≤ 1000000
        → (full : StrategyOutcome F) × (hybrid : StrategyOutcome F) × (run ops lower generate items
              budget
            ≡ ok (full, hybrid))
          × ((f : Sends "full" 1000000 items full) × Perm f.selection.selected items)
          × Sends "hybrid" budget items hybrid
          × (full.items_selected ≡ length items)
          × (hybrid.tokens_estimated ≤ full.tokens_estimated)
  unfolding run policies
  run-compares answers ids accessed calculator_content workflow_id budget small =
      let items = build_context_pool ops ids accessed calculator_content workflow_id in
      let priced = pool-priced ids accessed calculator_content workflow_id in
      let (full, p, f) = run_strategy-Sends answers "full" 1000000 items refl priced in
      let (hybrid, q, h) = run_strategy-Sends answers "hybrid" budget items refl priced in
      let whole = everything items 1000000 f.selection f.chosen small in
      (
        full,
        hybrid,
        rw p (rw q refl),
        (f, whole),
        h,
        omega (arith, f.number, length-perm whole),
        omega (
          arith,
          f.estimated,
          h.estimated,
          sum_by-perm tokens_of whole,
          sum_by-perm tokens_of h.chosen.complete,
          sum_by-append tokens_of h.selection.selected h.selection.discarded,
        ),
      )
