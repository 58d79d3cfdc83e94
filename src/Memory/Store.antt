-- ===== src/Memory/Store.antt =====
-- memory/store.py, but for the connection and the schema. Each method runs its statements with no
-- other between them.
use fleet_llm_inference.Common.{
  ℕ, ◌+◌, String, Bool, true, false, Option, none, some, List, [], ◌∷◌, ◌==◌, ◌&&◌, eqb,
  if◌then◌else◌,
}
use fleet_llm_inference.Common.Raises.{Result, ok, raised, value_error, map_raising, ◌>>=◌}
use fleet_llm_inference.Common.Actions.{Action}
use fleet_llm_inference.Memory.{MemoryKind, working, episodic, MemoryItem}
use fleet_llm_inference.Memory.Table.{Row, Table, has_id}

-- `kind.value`
abbrev pub kind_text : MemoryKind → String
kind_text working = "working"
kind_text episodic = "episodic"

-- `MemoryKind(text)`
unfoldable pub kind_of : String → Result MemoryKind
kind_of t =
    if t == "working"
    then ok working
    else if t == "episodic"
    then ok episodic
    else raised value_error

-- `column = $1`, which does not hold of NULL.
abbrev pub equals : Option String → String → Bool
equals none t = false
equals (some s) t = s == t

module _ {F : Type 0} where
  abbrev pub row_of : MemoryItem F → Row F
  row_of item = record {
    id = item.id;
    kind = kind_text item.kind;
    content = item.content;
    agent_id = item.agent_id;
    workflow_id = item.workflow_id;
    importance = item.importance;
    created_at = item.created_at;
    last_used_at = item.last_used_at;
    access_count = item.access_count;
    expires_at = item.expires_at;
  }

  -- `_row_to_item`
  unfoldable pub row_to_item : Row F → Result (MemoryItem F)
  unfolding kind_of
  row_to_item row = do
    kind ← kind_of row.kind
    ok (record {
      kind = kind;
      content = row.content;
      agent_id = row.agent_id;
      workflow_id = row.workflow_id;
      importance = row.importance;
      id = row.id;
      created_at = row.created_at;
      last_used_at = row.last_used_at;
      access_count = row.access_count;
      expires_at = row.expires_at;
    })

  -- What `get` changes of a row, and of the item it returns.
  abbrev pub used : F → Row F → Row F
  used now row = record row { last_used_at = now; access_count = row.access_count + 1 }

  abbrev pub used_item : F → MemoryItem F → MemoryItem F
  used_item now item = record item { last_used_at = now; access_count = item.access_count + 1 }

  abbrev pub used_result : F → Result (MemoryItem F) → Result (Option (MemoryItem F))
  used_result now (ok item) = ok (some (used_item now item))
  used_result now (raised e) = raised e

  abbrev pub of_kind : Option MemoryKind → Row F → Bool
  of_kind none row = true
  of_kind (some kind) row = row.kind == kind_text kind

  -- `now if now is not None else time.time()`
  abbrev pub or_clock : Option F → F → F
  or_clock none clock = clock
  or_clock (some now) clock = now

module _ {F : Type 0} (T : Table F) where
  abbrev pub after_insert :
      MemoryItem F → T.State × Result (Unit {0}) → T.State × Result (MemoryItem F)
  after_insert item (s, ok u) = (s, ok item)
  after_insert item (s, raised e) = (s, raised e)

  unfoldable pub add : MemoryItem F → Action T.State (MemoryItem F)
  add item s = after_insert item (T.insert s (row_of item))

  -- After `SELECT * FROM memories WHERE id = $1`.
  abbrev pub fetched : String → F → List (Row F) → Action T.State (Option (MemoryItem F))
  fetched item_id now [] s = (s, ok none)
  fetched item_id now (row ∷ rows) s =
      (T.update s (has_id item_id) (used now), used_result now (row_to_item row))

  unfoldable pub get : String → F → Action T.State (Option (MemoryItem F))
  unfolding row_to_item
  get item_id now s = fetched item_id now (T.select s (has_id item_id)) s

  -- Both statements: with a kind and without.
  unfoldable pub list_for_workflow :
      String → Option MemoryKind → Action T.State (List (MemoryItem F))
  unfolding map_raising row_to_item
  list_for_workflow workflow_id kind s = (
    s,
    map_raising row_to_item
        (T.order (T.select s (λ row. equals row.workflow_id workflow_id && of_kind kind row))),
  )

  -- `result == "DELETE 1"`
  unfoldable pub delete : String → Action T.State Bool
  delete item_id s = let (s', count) = T.delete s (has_id item_id) in (s', ok (eqb count 1))

  -- `expires_at IS NOT NULL AND expires_at <= $1`
  abbrev pub expired_at : F → Option F → Bool
  expired_at now none = false
  expired_at now (some t) = T.le t now

  unfoldable pub purge_expired : Option F → F → Action T.State ℕ
  purge_expired now clock s =
      let (s', count) = T.delete s (λ row. expired_at (or_clock now clock) row.expires_at) in
      (s', ok count)
