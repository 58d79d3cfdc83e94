-- ===== src/Memory/PurgeTests.antt =====
-- A purge of a small table.
use fleet_llm_inference.Common.{
  ℕ, ◌+◌, ◌≡◌, refl, true, false, none, some, List, [], ◌∷◌, leb, length,
}
use fleet_llm_inference.Common.Raises.{ok}
use fleet_llm_inference.Memory.{MemoryItem, working}
use fleet_llm_inference.Memory.Table.{Row, memory_table, memory_table-IsTable}
use fleet_llm_inference.Memory.Store.{add, get, purge_expired, row_of, used_item, expired_at}
use fleet_llm_inference.Memory.Durable.{get-purge_expired}

abbrev note : MemoryItem ℕ
note = record {
  kind = working;
  content = "fix";
  agent_id = none;
  workflow_id = some "w";
  importance = 5;
  id = "n";
  created_at = 2;
  last_used_at = 2;
  access_count = 0;
  expires_at = some 9;
}

abbrev old : List (Row ℕ)
old = row_of (record note { id = "o"; expires_at = some 1 }) ∷ []

get-purge_expired_example :
    let s₁ = (add (memory_table leb) note old).0 in
    let (s₂, purged) = purge_expired (memory_table leb) (some 5) 0 s₁ in
    (expired_at (memory_table leb) 5 (some 9) ≡ false
      → (get (memory_table leb) "n" 6 s₂).1 ≡ ok (some (used_item 6 note)))
    × (expired_at (memory_table leb) 5 (some 9) ≡ true
        → (get (memory_table leb) "n" 6 s₂).1 ≡ ok none)
    × ((n : ℕ) × (purged ≡ ok n)
        × (n + length ((memory_table-IsTable leb).rows s₂)
            ≡ length ((memory_table-IsTable leb).rows s₁)))
get-purge_expired_example =
    get-purge_expired (memory_table leb) (memory_table-IsTable leb) note 5 0 6 old refl
