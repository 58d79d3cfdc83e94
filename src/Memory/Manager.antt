-- ===== src/Memory/Manager.antt =====
-- memory/manager.py. `stamp` has the id and the two times of a new item, and `clock` is the time that
-- an expiry counts from.
use fleet_llm_inference.Common.{ℕ, String, Option, none, some, List}
use fleet_llm_inference.Common.Floats.{Floats}
use fleet_llm_inference.Common.Actions.{Action, pure, lift, ◌>>=◌}
use fleet_llm_inference.Dict.{Dict}
use fleet_llm_inference.Context.Models.{ContextItem, Stamp}
use fleet_llm_inference.Memory.{
  MemoryKind, working, episodic, MemoryItem, retrieve_relevant_memories, to_context_items,
}
use fleet_llm_inference.Memory.Table.{Table}
use fleet_llm_inference.Memory.Store
use fleet_llm_inference.Memory.Store.{add}

module _ {F : Type 0} where
  unfoldable pub new_memory :
      MemoryKind → String → Option String → Option String → F → Option F → Stamp F → MemoryItem F
  new_memory kind content workflow_id agent_id importance expires_at stamp = record {
    kind = kind;
    content = content;
    agent_id = agent_id;
    workflow_id = workflow_id;
    importance = importance;
    id = stamp.id;
    created_at = stamp.created_at;
    last_used_at = stamp.last_accessed_at;
    access_count = 0;
    expires_at = expires_at;
  }

  abbrev pub expiry : Floats F → F → Option F → Option F
  expiry ops clock none = none
  expiry ops clock (some ttl_seconds) = some (ops.add clock ttl_seconds)

module _ {F : Type 0} (T : Table F) (ops : Floats F) where
  unfoldable pub record_working :
      String
      → Option String
      → Option String
      → F
      → Option F
      → F
      → Stamp F
      → Action T.State (MemoryItem F)
  unfolding add new_memory
  record_working content workflow_id agent_id importance ttl_seconds clock stamp = add T (
      new_memory working content workflow_id agent_id importance (expiry ops clock ttl_seconds)
        stamp)

  unfoldable pub record_episodic :
      String → Option String → Option String → F → Stamp F → Action T.State (MemoryItem F)
  unfolding add new_memory
  record_episodic content workflow_id agent_id importance stamp =
      add T (new_memory episodic content workflow_id agent_id importance none stamp)

  unfoldable pub get_relevant_memories :
      (String → List String)
      → String
      → ℕ
      → String
      → Option MemoryKind
      → Option (Dict F)
      → Action T.State (List (MemoryItem F))
  unfolding Store.list_for_workflow retrieve_relevant_memories
  get_relevant_memories words workflow_id budget_tokens query kind weights = do
    candidates ← Store.list_for_workflow T workflow_id kind
    lift (retrieve_relevant_memories ops words candidates budget_tokens query weights)

  unfoldable pub get_relevant_context :
      (String → List String)
      → String
      → ℕ
      → String
      → Option MemoryKind
      → Option (Dict F)
      → (ℕ → Stamp F)
      → Action T.State (List (ContextItem F))
  unfolding get_relevant_memories to_context_items
  get_relevant_context words workflow_id budget_tokens query kind weights stamps = do
    memories ← get_relevant_memories words workflow_id budget_tokens query kind weights
    pure (to_context_items ops memories stamps 0)
