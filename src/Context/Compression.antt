-- ===== src/Context/Compression.antt =====
-- context/compression.py. The summarizer is a parameter of the code, and so of the model.
use fleet_llm_inference.Common.{ℕ, String, Option, none, some, List, [], ◌∷◌, map, sum_by, join}
use fleet_llm_inference.Common.Int.{ℤ, sub_ℕ}
use fleet_llm_inference.Common.Floats.{Floats, maximum}
use fleet_llm_inference.Common.Raises.{Result, ok, raised, value_error, ◌>>=◌}
use fleet_llm_inference.Context.Models.{ContextItem, Stamp, summary, post_init}

pub record CompressionResult (F : Type 0) : Type 0 where
  pub original_items : List (ContextItem F)
  pub summary_item : ContextItem F
  pub tokens_before : ℕ
  pub tokens_after : ℕ

abbrev pub or_else : Option String → Option String → Option String
or_else none b = b
or_else (some a) b = some a

module _ {F : Type 0} where
  unfoldable pub compression_result : List (ContextItem F) → ContextItem F → CompressionResult F
  compression_result original_items summary_item = record {
    original_items = original_items;
    summary_item = summary_item;
    tokens_before = sum_by (λ i. i.token_count) original_items;
    tokens_after = summary_item.token_count;
  }

  unfoldable pub tokens_saved : CompressionResult F → ℤ
  tokens_saved r = sub_ℕ r.tokens_before r.tokens_after

module _ {F : Type 0} (ops : Floats F) where
  unfoldable pub summary_of :
      ContextItem F
      → List (ContextItem F)
      → String
      → Option String
      → Option String
      → Stamp F
      → ContextItem F
  unfolding post_init maximum
  summary_of first rest text workflow_id agent_id stamp = post_init (record {
    type = summary;
    content = text;
    source = some "compression";
    agent_id = or_else agent_id first.agent_id;
    workflow_id = or_else workflow_id first.workflow_id;
    importance = maximum ops.less first.importance (map (λ (i : ContextItem F). i.importance) rest);
    relevance = ops.literal 5 10;
    artifact_id = none;
    id = stamp.id;
    token_count = 0;
    created_at = stamp.created_at;
    last_accessed_at = stamp.last_accessed_at;
  })

  unfoldable pub compress_items :
      List (ContextItem F)
      → (String → Result String)
      → Option String
      → Option String
      → Stamp F
      → Result (CompressionResult F)
  unfolding compression_result summary_of
  compress_items [] summarizer workflow_id agent_id stamp = raised value_error
  compress_items (first ∷ rest) summarizer workflow_id agent_id stamp = do
    text ← summarizer (join "\n\n" (map (λ (i : ContextItem F). i.content) (first ∷ rest)))
    ok (compression_result (first ∷ rest) (summary_of first rest text workflow_id agent_id stamp))
