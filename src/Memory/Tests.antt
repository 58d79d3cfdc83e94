-- ===== src/Memory/Tests.antt =====
-- Concrete runs of the modules of memory/.
use fleet_llm_inference.Common.{ℕ, String, ◌≡◌, none, some, List, [], ◌∷◌}
use fleet_llm_inference.Common.Raises.{ok}
use fleet_llm_inference.Samples.{whole}
use fleet_llm_inference.Memory.{MemoryItem, working, episodic, retrieve_relevant_memories}
use fleet_llm_inference.Memory.Budget.{IsRetrieval, retrieve_relevant_memories-IsRetrieval}
use fleet_llm_inference.Memory.Total.{retrieve_relevant_memories_total}

abbrev one_word : String → List String
one_word text = text ∷ []

abbrev memories : List (MemoryItem ℕ)
memories =
    record {
      kind = episodic;
      content = "the build is slow";
      agent_id = none;
      workflow_id = some "w";
      importance = 5;
      id = "m";
      created_at = 1;
      last_used_at = 3;
      access_count = 2;
      expires_at = none;
    }
    ∷ record {
      kind = working;
      content = "fix";
      agent_id = none;
      workflow_id = some "w";
      importance = 7;
      id = "n";
      created_at = 2;
      last_used_at = 2;
      access_count = 0;
      expires_at = some 9;
    }
    ∷ []

abbrev retrieved : List (MemoryItem ℕ)
retrieved = (retrieve_relevant_memories_total whole one_word memories 3 "fix").0

abbrev retrieved_lem :
    retrieve_relevant_memories whole one_word memories 3 "fix" none ≡ ok retrieved
retrieved_lem = (retrieve_relevant_memories_total whole one_word memories 3 "fix").1

retrieve_relevant_memories-IsRetrieval_example : IsRetrieval whole memories 3 retrieved
retrieve_relevant_memories-IsRetrieval_example =
    retrieve_relevant_memories-IsRetrieval whole one_word memories 3 "fix" none retrieved
      retrieved_lem
