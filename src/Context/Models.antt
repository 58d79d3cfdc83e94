-- ===== src/Context/Models.antt =====
-- context/models.py. Timestamps, importance and relevance are floats, whose type is a parameter.
use Prim.Native.String.{count}
use fleet_llm_inference.Common.{ℕ, ◌/◌, ◌≤◌, max, String, Bool, true, false, Option, arith}

pub data ContextType : Type 0 where
  conversation file tool_result error memory summary instruction task_state : ContextType

-- `a == b`
unfoldable pub same_type : ContextType → ContextType → Bool
same_type conversation conversation = true
same_type file file = true
same_type tool_result tool_result = true
same_type error error = true
same_type memory memory = true
same_type summary summary = true
same_type instruction instruction = true
same_type task_state task_state = true
same_type _ _ = false

unfoldable pub estimate_tokens : String → ℕ
estimate_tokens text = max 1 (count text / 4)

pub record ContextItem (F : Type 0) : Type 0 where
  pub type : ContextType
  pub content : String
  pub source : Option String
  pub agent_id : Option String
  pub workflow_id : Option String
  pub importance : F
  pub relevance : F
  pub artifact_id : Option String
  pub id : String
  pub token_count : ℕ
  pub created_at : F
  pub last_accessed_at : F

-- `__post_init__`: the item with its token count
unfoldable pub post_init : {F : Type 0} → ContextItem F → ContextItem F
post_init item = record item { token_count = estimate_tokens item.content }

-- What `uuid4` and two calls of the clock give for a new item.
pub record Stamp (F : Type 0) : Type 0 where
  pub id : String
  pub created_at : F
  pub last_accessed_at : F

unfoldable pub touch : {F : Type 0} → ContextItem F → F → ContextItem F
touch item now = record item { last_accessed_at = now }

-- An estimate is never zero, so no density divides by zero.
pub estimate_tokens-pos : (text : String) → 1 ≤ estimate_tokens text
unfolding estimate_tokens
estimate_tokens-pos text = omega arith
