-- ===== src/Memory/Table.antt =====
-- The table `memories` of PostgreSQL that memory/store.py works on: its statements with their
-- conditions as tests on a row, and what the code relies on. A table of rows in memory meets it.
use fleet_llm_inference.Common.{
  ℕ, String, ◌≡◌, refl, Bool, false, not, Option, List, [], ◌∷◌, ◌++◌, map, keep, any, length, Perm,
  ◌==◌, if◌then◌else◌,
}
use mathlib.Core.List.Perm
use fleet_llm_inference.Common.Raises.{Result, ok, raised, value_error}

pub record Row (F : Type 0) : Type 0 where
  pub id : String
  pub kind : String
  pub content : String
  pub agent_id : Option String
  pub workflow_id : Option String
  pub importance : F
  pub created_at : F
  pub last_used_at : F
  pub access_count : ℕ
  pub expires_at : Option F

-- DELETE gives the number of rows that it deleted; `order` is ORDER BY created_at, and `le` is `<=` on
-- DOUBLE PRECISION.
pub record Table (F : Type 0) : Type 1 where
  pub State : Type 0
  pub insert : State → Row F → State × Result (Unit {0})
  pub select : State → (Row F → Bool) → List (Row F)
  pub update : State → (Row F → Bool) → (Row F → Row F) → State
  pub delete : State → (Row F → Bool) → State × ℕ
  pub order : List (Row F) → List (Row F)
  pub le : F → F → Bool

abbrev pub has_id : {F : Type 0} → String → Row F → Bool
has_id id row = row.id == id

abbrev pub changed : {F : Type 0} → (Row F → Bool) → (Row F → Row F) → Row F → Row F
changed p f row = if p row then f row else row

pub record IsTable {F : Type 0} (T : Table F) : Type 0 where
  pub rows : T.State → List (Row F)
  pub rows-select : (s : T.State) (p : Row F → Bool) → T.select s p ≡ keep p (rows s)
  -- The primary key: a row is appended unless its id is there.
  pub rows-insert :
      (s : T.State) (row : Row F)
      → any (has_id row.id) (rows s) ≡ false
      → (rows (T.insert s row).0 ≡ rows s ++ row ∷ []) × ((T.insert s row).1 ≡ ok tt)
  pub rows-update :
      (s : T.State) (p : Row F → Bool) (f : Row F → Row F)
      → rows (T.update s p f) ≡ map (changed p f) (rows s)
  pub rows-delete :
      (s : T.State) (p : Row F → Bool)
      → (rows (T.delete s p).0 ≡ keep (λ r. not (p r)) (rows s))
        × ((T.delete s p).1 ≡ length (keep p (rows s)))
  pub order-Perm : (l : List (Row F)) → Perm (T.order l) l

module _ {F : Type 0} (le : F → F → Bool) where
  abbrev pub memory_table : Table F
  memory_table = record {
    State = List (Row F);
    insert =
        λ s row. if any (has_id row.id) s then (s, raised value_error) else (s ++ row ∷ [], ok tt);
    select = λ s p. keep p s;
    update = λ s p f. map (changed p f) s;
    delete = λ s p. (keep (λ r. not (p r)) s, length (keep p s));
    order = λ l. l;
    le = le;
  }

  abbrev pub memory_table-IsTable : IsTable memory_table
  memory_table-IsTable = record {
    rows = λ s. s;
    rows-select = λ s p. refl;
    rows-insert = λ s row e. (rw e refl, rw e refl);
    rows-update = λ s p f. refl;
    rows-delete = λ s p. (refl, refl);
    order-Perm = λ l. Perm.refl l;
  }
