-- ===== src/Memory/Durable.antt =====
-- What the memories of memory/store.py and memory/manager.py keep, and what a purge drops.
use fleet_llm_inference.Common.{
  ℕ, ◌+◌, String, ◌≡◌, refl, ap, ◌∙◌, Bool, true, false, not, Option, none, some, List, [], ◌∷◌,
  ◌++◌, keep, any, keep-append, length, eq_refl, arith, if◌then◌else◌,
}
use fleet_llm_inference.Common.Raises.{ok, ◌>>=◌}
use fleet_llm_inference.Common.Floats.{Floats}
use fleet_llm_inference.Context.Models.{Stamp}
use fleet_llm_inference.Memory.{MemoryKind, working, episodic, MemoryItem}
use fleet_llm_inference.Memory.Table.{Row, Table, IsTable, has_id}
use fleet_llm_inference.Memory.Store.{
  kind_text, fetched, add, get, purge_expired, row_of, row_to_item, kind_of, used_item, expired_at,
  or_clock, after_insert,
}
use fleet_llm_inference.Memory.Manager.{new_memory, record_episodic}

kind_of-kind_text : (kind : MemoryKind) → kind_of (kind_text kind) ≡ ok kind
unfolding kind_of
kind_of-kind_text working = refl
kind_of-kind_text episodic = refl

-- A row that is read back gives the item that it was written from.
row_to_item-row_of : {F : Type 0} (item : MemoryItem F) → row_to_item (row_of item) ≡ ok item
unfolding row_to_item
row_to_item-row_of item = rw (kind_of-kind_text item.kind, ◌>>=◌) refl

keep-none {ℓ} : {A : Type ℓ} (p : A → Bool) (xs : List A) → any p xs ≡ false → keep p xs ≡ []
keep-none p [] h = refl
keep-none p (x ∷ xs) h = ground (arith, keep-none p xs)

any-keep {ℓ} :
    {A : Type ℓ} (p q : A → Bool) (xs : List A) → any p xs ≡ false → any p (keep q xs) ≡ false
any-keep p q [] h = refl
any-keep p q (x ∷ xs) h = ground (arith, any-keep p q xs)

length-keep-split {ℓ} :
    {A : Type ℓ} (p : A → Bool) (xs : List A)
    → length (keep p xs) + length (keep (λ x. not (p x)) xs) ≡ length xs
length-keep-split p [] = omega arith
length-keep-split p (x ∷ xs) = ground (arith, length-keep-split p xs)

module _ {F : Type 0} (T : Table F) (L : IsTable T) where
  abbrev pub IsFresh : String → T.State → Type 0
  IsFresh id s = any (has_id id) (L.rows s) ≡ false

  get-selected :
      (s : T.State) (item : MemoryItem F) (now : F)
      → T.select s (has_id item.id) ≡ row_of item ∷ []
      → (get T item.id now s).1 ≡ ok (some (used_item now item))
  unfolding get
  get-selected s item now e =
      ap (λ rows. (fetched T item.id now rows s).1) e ∙ rw (row_to_item-row_of item) refl

  get-nothing :
      (s : T.State) (id : String) (now : F)
      → T.select s (has_id id) ≡ []
      → (get T id now s).1 ≡ ok none
  unfolding get
  get-nothing s id now e = ap (λ rows. (fetched T id now rows s).1) e

  rows-add :
      (s : T.State) (item : MemoryItem F)
      → IsFresh item.id s
      → L.rows (add T item s).0 ≡ L.rows s ++ row_of item ∷ []
  unfolding add
  rows-add s item h =
      let (a, b) = L.rows-insert s (row_of item) h in
      ap (λ r. L.rows (after_insert T item ((T.insert s (row_of item)).0, r)).0) b ∙ a

  -- The rows of the id after a purge.
  selected :
      (s : T.State) (item : MemoryItem F) (keeps : Row F → Bool) (s' : T.State)
      → IsFresh item.id s
      → L.rows s' ≡ keep keeps (L.rows s ++ row_of item ∷ [])
      → T.select s' (has_id item.id) ≡ (if keeps (row_of item) then row_of item ∷ [] else [])
  selected s item keeps s' h e =
      L.rows-select s' (has_id item.id)
      ∙ ap (keep (has_id item.id)) (e ∙ keep-append keeps (L.rows s) (row_of item ∷ []))
      ∙ keep-append (has_id item.id) (keep keeps (L.rows s)) (keep keeps (row_of item ∷ []))
      ∙ rw
          (keep-none (has_id item.id) (keep keeps (L.rows s))
            (any-keep (has_id item.id) keeps (L.rows s) h))
          (ground (arith, eq_refl item.id))

  -- A new memory that is not expired at a purge can be read after it, with one access more; one that is
  -- expired is gone. The purge answers how many rows it has deleted.
  pub get-purge_expired :
      (item : MemoryItem F) (now clock later : F) (s : T.State)
      → IsFresh item.id s
      → let s₁ = (add T item s).0 in
        let (s₂, purged) = purge_expired T (some now) clock s₁ in
        (expired_at T now item.expires_at ≡ false
          → (get T item.id later s₂).1 ≡ ok (some (used_item later item)))
        × (expired_at T now item.expires_at ≡ true → (get T item.id later s₂).1 ≡ ok none)
        × ((n : ℕ) × (purged ≡ ok n) × (n + length (L.rows s₂) ≡ length (L.rows s₁)))
  unfolding purge_expired
  get-purge_expired item now clock later s h =
      let s₁ = (add T item s).0 in
      let (s₂, purged) = purge_expired T (some now) clock s₁ in
      let expired : Row F → Bool = λ row. expired_at T now row.expires_at in
      let (a, b) = L.rows-delete s₁ expired in
      let chosen =
        selected s item (λ r. not (expired r)) s₂ h
          (a ∙ ap (keep (λ r. not (expired r))) (rows-add s item h)) in
      (
        λ e. get-selected s₂ item later (chosen ∙ rw e refl),
        λ e. get-nothing s₂ item.id later (chosen ∙ rw e refl),
        (_, refl, rw (a, b) (length-keep-split expired (L.rows s₁))),
      )

  -- A new episodic memory is there after any purge.
  pub get-record_episodic :
      (ops : Floats F) (content : String) (workflow_id agent_id : Option String) (importance : F)
      (stamp : Stamp F) (now : Option F) (clock later : F) (s : T.State)
      → IsFresh stamp.id s
      → let (s₁, recorded) =
          record_episodic T ops content workflow_id agent_id importance stamp s in
        (item : MemoryItem F) × (recorded ≡ ok item)
        × (item.kind ≡ episodic)
        × (item.content ≡ content)
        × ((get T stamp.id later (purge_expired T now clock s₁).0).1
            ≡ ok (some (used_item later item)))
  unfolding record_episodic new_memory add purge_expired
  get-record_episodic ops content workflow_id agent_id importance stamp now clock later s h =
      let item = new_memory episodic content workflow_id agent_id importance none stamp in
      let (a, b) = L.rows-insert s (row_of item) h in
      (
        item,
        ap (λ r. (after_insert T item ((T.insert s (row_of item)).0, r)).1) b,
        refl,
        refl,
        (get-purge_expired item (or_clock now clock) clock later s h).0 refl,
      )
