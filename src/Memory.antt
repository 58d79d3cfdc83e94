-- ===== src/Memory.antt =====
-- memory/models.py, memory/ranking.py and memory/retrieval.py. `words` gives the words of a text, each
-- once, as the regular expression of `_words` finds them.
pub mod Budget
pub mod Total
pub mod Table
pub mod Store
pub mod Manager
pub mod Durable
mod PurgeTests
mod Tests
use fleet_llm_inference.Common.{
  ℕ, ◌+◌, max, String, Bool, true, false, not, Option, none, some, List, [], ◌∷◌, map, keep, elem,
  length, ◌==◌, if◌then◌else◌,
}
use fleet_llm_inference.Common.Floats.{Floats, minimum, maximum}
use fleet_llm_inference.Common.Sort.{sorted}
use fleet_llm_inference.Common.Packing.{pack}
use fleet_llm_inference.Common.Raises.{Result, ok, raised, ◌>>=◌, or_key_error, map_raising}
use fleet_llm_inference.Dict
use fleet_llm_inference.Dict.{Dict}
use fleet_llm_inference.Context.Models.{ContextItem, Stamp, memory, estimate_tokens, post_init}

pub data MemoryKind : Type 0 where
  working episodic : MemoryKind

pub record MemoryItem (F : Type 0) : Type 0 where
  pub kind : MemoryKind
  pub content : String
  pub agent_id : Option String
  pub workflow_id : Option String
  pub importance : F
  pub id : String
  pub created_at : F
  pub last_used_at : F
  pub access_count : ℕ
  pub expires_at : Option F

-- `f"memory:{item.kind.value}"`
abbrev pub source_of : MemoryKind → String
source_of working = "memory:working"
source_of episodic = "memory:episodic"

abbrev pub cost : {F : Type 0} → MemoryItem F → ℕ
cost i = estimate_tokens i.content

module _ {F : Type 0} where
  -- `{i.id: value(i) for i in items}`
  unfoldable pub values_by_id : (MemoryItem F → F) → List (MemoryItem F) → Dict F → Dict F
  values_by_id value [] d = d
  values_by_id value (i ∷ items) d = values_by_id value items (Dict.put d i.id (value i))

module _ {F : Type 0} (ops : Floats F) where
  open ops use {literal, of_int, add, sub, mul, div, less, same}

  unfoldable pub default_weights : Dict F
  default_weights =
      Dict.put
        (Dict.put
          (Dict.put (Dict.put Dict.empty "relevance" (literal 25 100)) "importance"
            (literal 25 100))
          "recency" (literal 25 100))
        "access_frequency" (literal 25 100)

  -- The share of common words of two sets of words, neither of them empty.
  unfoldable pub overlap : List String → List String → F
  overlap [] ys = literal 0 1
  overlap (x ∷ xs) [] = literal 0 1
  overlap (x ∷ xs) (y ∷ ys) =
      div (of_int (length (keep (λ w. elem w (y ∷ ys)) (x ∷ xs))))
        (of_int (length (x ∷ xs) + length (keep (λ w. not (elem w (x ∷ xs))) (y ∷ ys))))

  unfoldable pub lexical_relevance : (String → List String) → String → String → F
  unfolding overlap
  lexical_relevance words query content =
      if query == "" then literal 0 1 else overlap (words query) (words content)

  abbrev pub scaled : F → F → F → F
  scaled lo hi v = if same hi lo then literal 1 1 else div (sub v lo) (sub hi lo)

  unfoldable pub normalized : List (String × F) → List (String × F)
  unfolding minimum maximum
  normalized [] = []
  normalized ((k, v) ∷ entries) =
      let values = map (λ (e : String × F). e.1) entries in
      let lo = minimum less v values in
      let hi = maximum less v values in
      map (λ (e : String × F). (e.0, scaled lo hi e.1)) ((k, v) ∷ entries)

  unfoldable pub normalize : Dict F → Dict F
  unfolding normalized
  normalize values = record { entries = normalized values.entries }

  unfoldable pub score :
      (String → List String) → String → Dict F → Dict F → Dict F → MemoryItem F → Result F
  score words query weights recency access item = do
    relevance ← or_key_error (Dict.get weights "relevance")
    importance ← or_key_error (Dict.get weights "importance")
    recent ← or_key_error (Dict.get weights "recency")
    r ← or_key_error (Dict.get recency item.id)
    frequent ← or_key_error (Dict.get weights "access_frequency")
    a ← or_key_error (Dict.get access item.id)
    ok (
        add
          (add
            (add (mul relevance (lexical_relevance words query item.content))
              (mul importance item.importance))
            (mul recent r))
          (mul frequent a))

  unfoldable pub scores_of :
      (MemoryItem F → Result F) → List (MemoryItem F) → Dict F → Result (Dict F)
  scores_of f [] d = ok d
  scores_of f (i ∷ items) d = do s ← f i; scores_of f items (Dict.put d i.id s)

  -- `weights or DEFAULT_WEIGHTS`
  unfoldable pub or_default : Option (Dict F) → Dict F
  or_default none = default_weights
  or_default (some weights) = elim weights.entries [ [] ↦ default_weights | x ∷ xs ↦ weights ]

  unfoldable pub score_memories :
      (String → List String) → List (MemoryItem F) → String → Option (Dict F) → Result (Dict F)
  unfolding score scores_of normalize
  score_memories words items query weights =
      let recency = normalize (values_by_id (λ i. i.last_used_at) items Dict.empty) in
      let access = normalize (values_by_id (λ i. of_int i.access_count) items Dict.empty) in
      scores_of (score words query (or_default weights) recency access) items Dict.empty

  -- An item with the key that it is sorted by.
  abbrev pub by_key : F × MemoryItem F → F × MemoryItem F → Bool
  by_key a b = less b.0 a.0

  unfoldable pub keyed_memory : Dict F → MemoryItem F → Result (F × MemoryItem F)
  keyed_memory scores i = do
    s ← or_key_error (Dict.get scores i.id)
    ok (div s (of_int (max 1 (cost i))), i)

  -- The items that are not selected are dropped.
  unfoldable pub select_within_budget :
      List (MemoryItem F) → Dict F → ℕ → Result (List (MemoryItem F))
  select_within_budget items scores budget_tokens = do
    pairs ← map_raising (keyed_memory scores) items
    ok (pack cost (map (λ p. p.1) (sorted by_key pairs)) budget_tokens).selected

  unfoldable pub to_context_item : MemoryItem F → Stamp F → ContextItem F
  to_context_item item stamp = post_init (record {
    type = memory;
    content = item.content;
    source = some (source_of item.kind);
    agent_id = item.agent_id;
    workflow_id = item.workflow_id;
    importance = item.importance;
    relevance = literal 5 10;
    artifact_id = none;
    id = stamp.id;
    token_count = 0;
    created_at = stamp.created_at;
    last_accessed_at = stamp.last_accessed_at;
  })

  -- `stamps i` are the id and the times of the i-th new item.
  unfoldable pub to_context_items : List (MemoryItem F) → (ℕ → Stamp F) → ℕ → List (ContextItem F)
  unfolding to_context_item
  to_context_items [] stamps n = []
  to_context_items (i ∷ items) stamps n =
      to_context_item i (stamps n) ∷ to_context_items items stamps (n + 1)

  unfoldable pub retrieve_relevant_memories :
      (String → List String)
      → List (MemoryItem F)
      → ℕ
      → String
      → Option (Dict F)
      → Result (List (MemoryItem F))
  retrieve_relevant_memories words [] budget_tokens query weights = ok []
  retrieve_relevant_memories words (i ∷ items) budget_tokens query weights = do
    scores ← score_memories words (i ∷ items) query weights
    select_within_budget (i ∷ items) scores budget_tokens
