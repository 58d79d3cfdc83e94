-- ===== src/Samples.antt =====
-- Concrete values for the tests: whole numbers in the place of floats, and a small store.
use native.Mathlib.Omega.{arith}
use fleet_llm_inference.Common.{ℕ, ◌+◌, ◌-◌, ◌*◌, ◌/◌, String, none, some, ltb, eqb}
use fleet_llm_inference.Common.Floats.{Floats, IsOrder}
use fleet_llm_inference.Context.Models.{ContextItem, Stamp, conversation}

abbrev pub whole : Floats ℕ
whole = record {
  literal = λ m n. m;
  of_int = λ n. n;
  add = λ m n. m + n;
  sub = λ m n. m - n;
  mul = λ m n. m * n;
  div = λ m n. m / n;
  round = λ m n. m;
  less = ltb;
  same = eqb;
}

pub whole-IsOrder : IsOrder whole
whole-IsOrder = record {
  irrefl = λ x. ground arith;
  trans = λ x y z h k. ground arith;
  weak = λ x y z h k. ground arith;
}

abbrev pub turn : String → ℕ → ContextItem ℕ
turn id time = record {
  type = conversation;
  content = "hello";
  source = none;
  agent_id = none;
  workflow_id = some "w";
  importance = 5;
  relevance = time;
  artifact_id = none;
  id = id;
  token_count = 3;
  created_at = time;
  last_accessed_at = time;
}

abbrev pub stamp : Stamp ℕ
stamp = record { id = "new"; created_at = 9; last_accessed_at = 9 }
