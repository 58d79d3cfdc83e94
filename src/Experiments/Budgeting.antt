-- ===== src/Experiments/Budgeting.antt =====
-- benchmarks/experiments/context_budgeting.py: what the experiment selects and sends. The file that it
-- reads, the clock and the worker's answers are given.
use fleet_llm_inference.Common.{
  ℕ, ◌+◌, String, ◌<>◌, Bool, true, false, none, some, List, [], ◌∷◌, ◌++◌, map, join, length,
  if◌then◌else◌,
}
use fleet_llm_inference.Common.Floats.{Floats}
use fleet_llm_inference.Common.Raises.{Result, ok, ◌>>=◌}
use fleet_llm_inference.Context.Models.{ContextItem, conversation, file, post_init}
use fleet_llm_inference.Context.Selection.{select_context}
use fleet_llm_inference.Workers.Client.Requests.{Completion}
use fleet_llm_inference.CodingAgent.Agent.{contains}

abbrev pub filler_topics : List String
filler_topics =
    "What's a good pasta recipe for tonight?" ∷ "How do I center a div in CSS?"
    ∷ "What's the capital of France?" ∷ "Can you explain how photosynthesis works?"
    ∷ "What's the difference between TCP and UDP?" ∷ "Recommend a good sci-fi book."
    ∷ "How do I fix a leaky faucet?" ∷ "What's the best way to learn a new language?"
    ∷ "Explain the offside rule in soccer." ∷ "What's a good workout routine for beginners?"
    ∷ "How does compound interest work?" ∷ "What's the weather usually like in autumn?"
    ∷ "Can you summarize the plot of Hamlet?" ∷ "How do airplanes stay in the air?"
    ∷ "What's a good beginner recipe for bread?" ∷ "Explain how vaccines work."
    ∷ "What's the tallest mountain in the world?" ∷ "How do I organize a small bookshelf?"
    ∷ "What's a good stretch routine after running?"
    ∷ "Explain how a refrigerator keeps things cold." ∷ []

abbrev pub task_prompt : String
task_prompt =
    "Fix the failing test in calculator.py. In one short sentence, what exactly is wrong with the add function?"

abbrev pub success_keywords : List String
success_keywords =
    "subtract" ∷ "minus" ∷ "- b" ∷ "wrong operator" ∷ "should add" ∷ "incorrectly" ∷ []

abbrev pub any_in : List String → String → Bool
any_in [] text = false
any_in (k ∷ keywords) text =
    let rest = any_in keywords text in if contains k text then true else rest

-- `lower` is the method of str.
unfoldable pub task_succeeded : (String → String) → String → Bool
unfolding contains
task_succeeded lower response_text = any_in success_keywords (lower response_text)

pub record StrategyOutcome (F : Type 0) : Type 0 where
  pub policy : String
  pub budget_tokens : ℕ
  pub items_selected : ℕ
  pub items_total : ℕ
  pub tokens_estimated : ℕ
  pub tokens_actual : ℕ
  pub latency_s : F
  pub response : String
  pub task_success : Bool

module _ {F : Type 0} (ops : Floats F) (ids : ℕ → String) (accessed : ℕ → F) where
  -- The i-th item of the pool, which was created at `float(i)`.
  unfoldable pub pool_item : String → ℕ → ContextItem F → ContextItem F
  unfolding post_init
  pool_item workflow_id i item = post_init (record item {
    workflow_id = some workflow_id;
    id = ids i;
    created_at = ops.of_int i;
    last_accessed_at = accessed i;
  })

  abbrev pub blank : F → F → ContextItem F
  blank importance relevance = record {
    type = conversation;
    content = "";
    source = none;
    agent_id = none;
    workflow_id = none;
    importance = importance;
    relevance = relevance;
    artifact_id = none;
    id = "";
    token_count = 0;
    created_at = ops.literal 0 1;
    last_accessed_at = ops.literal 0 1;
  }

  unfoldable pub fillers : String → ℕ → List String → List (ContextItem F)
  unfolding pool_item
  fillers workflow_id i [] = []
  fillers workflow_id i (topic ∷ topics) =
      pool_item workflow_id i (record (blank (ops.literal 2 10) (ops.literal 15 100)) {
        content =
            "User: " <> topic <> "\nAssistant: [a normal, unrelated response about " <> topic
            <> "]";
      })
      ∷ fillers workflow_id (i + 1) topics

  unfoldable pub file_item : String → String → ContextItem F
  unfolding pool_item
  file_item calculator_content workflow_id =
      pool_item workflow_id (length filler_topics)
        (record (blank (ops.literal 9 10) (ops.literal 9 10)) {
          type = file;
          content = "calculator.py:\n" <> calculator_content;
          source = some "calculator.py";
        })

  unfoldable pub build_context_pool : String → String → List (ContextItem F)
  unfolding fillers file_item
  build_context_pool calculator_content workflow_id =
      fillers workflow_id 0 filler_topics ++ file_item calculator_content workflow_id ∷ []

module _ {F : Type 0} (ops : Floats F) (lower : String → String)
    (generate : String → Result (Completion F String) × F) where
  abbrev pub prompt_of : List (ContextItem F) → String
  prompt_of selected =
      join "\n\n" (map (λ (i : ContextItem F). i.content) selected) <> "\n\n" <> task_prompt

  -- `generate` gives the worker's answer to a prompt, and how long it took.
  unfoldable pub run_strategy : String → ℕ → List (ContextItem F) → Result (StrategyOutcome F)
  unfolding select_context task_succeeded
  run_strategy policy budget_tokens items = do
    selection ← select_context ops items budget_tokens policy none
    result ← (generate (prompt_of selection.selected)).0
    ok (record {
      policy = policy;
      budget_tokens = budget_tokens;
      items_selected = length selection.selected;
      items_total = length items;
      tokens_estimated = selection.selected_tokens;
      tokens_actual = result.prompt_tokens;
      latency_s = ops.round (generate (prompt_of selection.selected)).1 2;
      response = result.answer;
      task_success = task_succeeded lower result.answer;
    })

  unfoldable pub run : List (ContextItem F) → ℕ → Result (StrategyOutcome F × StrategyOutcome F)
  unfolding run_strategy
  run items budget = do
    full ← run_strategy "full" 1000000 items
    hybrid ← run_strategy "hybrid" budget items
    ok (full, hybrid)
