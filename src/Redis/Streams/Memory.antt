-- ===== src/Redis/Streams/Memory.antt =====
-- Streams in memory, with one consumer group. An entry that is not pending counts as new.
use fleet_llm_inference.Common.{
  ℕ, false, String, ◌<>◌, ◌≡◌, refl, Option, none, some, List, [], ◌∷◌, ◌++◌, ◌==◌, arith, eq_iff,
  length, take, drop, keep, is_some, ap, sym, ◌∙◌, zero, suc, ◌+◌, true, take-append-drop,
  if◌then◌else◌,
}
use fleet_llm_inference.Dict
use fleet_llm_inference.Dict.{Dict, get-put, get-pop}
use fleet_llm_inference.Redis.Streams.Cursor.{
  cursor_of, position, position-cursor_of, cursor_of-going,
}
use fleet_llm_inference.Redis.Streams.{Streams, IsStreams, Entry}

pub record Memory : Type 0 where
  pub streams : Dict (List Entry)
  pub pending : Dict ℕ
  pub next_id : String

abbrev pub entries_of : Option (List Entry) → List Entry
entries_of none = []
entries_of (some l) = l

-- The entries that are pending, each delivered once more.
abbrev pub claimed : Dict ℕ → List Entry → List Entry
claimed pending [] = []
claimed pending (e ∷ l) = elim (Dict.get pending e.0) [
  | none ↦ claimed pending l
  | some n ↦ e ∷ claimed pending l
]

-- The entries that are not pending.
abbrev pub unread : Dict ℕ → List Entry → List Entry
unread pending [] = []
unread pending (e ∷ l) = elim (Dict.get pending e.0) [
  | none ↦ e ∷ unread pending l
  | some n ↦ unread pending l
]

-- The entries become pending, delivered once.
abbrev pub mark : List Entry → Dict ℕ → Dict ℕ
mark [] pending = pending
mark (e ∷ l) pending = mark l (Dict.put pending e.0 1)

-- The cursor of the entries that are left, from a position on.
abbrev pub cursor_for : List Entry → ℕ → String
cursor_for [] n = "0-0"
cursor_for (e ∷ l) n = cursor_of n

abbrev pub memory_streams : Streams
memory_streams = record {
  State = Memory;
  xadd = λ s k f. (
    record s {
      streams = Dict.put s.streams k (entries_of (Dict.get s.streams k) ++ (s.next_id, f) ∷ []);
      next_id = s.next_id <> "1";
    },
    s.next_id,
  );
  xreadgroup = λ s g c k n.
      let new = take n (unread s.pending (entries_of (Dict.get s.streams k))) in
      (record s { pending = mark new s.pending }, new);
  xack = λ s k g i. record s { pending = Dict.pop s.pending i };
  xlen = λ s k. length (entries_of (Dict.get s.streams k));
  xrange = λ s k n. take n (entries_of (Dict.get s.streams k));
  delivered = λ s k g i. Dict.get s.pending i;
  xautoclaim = λ s k g c idle start n.
      let waiting = drop (position start) (claimed s.pending (entries_of (Dict.get s.streams k))) in
      (s, cursor_for (drop n waiting) (position start + n), take n waiting);
}

pub entries_of-put :
    (s : Memory) (k : String) (f : Dict String) (j : String)
    → entries_of (Dict.get (memory_streams.xadd s k f).0.streams j) ≡ (
        if k == j
        then entries_of (Dict.get s.streams j) ++ (s.next_id, f) ∷ []
        else entries_of (Dict.get s.streams j))
entries_of-put s k f j = ground (
  arith,
  get-put s.streams k j (entries_of (Dict.get s.streams k) ++ (s.next_id, f) ∷ []),
  eq_iff k j,
)

pub claimed-keep :
    (pending : Dict ℕ) (l : List Entry)
    → claimed pending l ≡ keep (λ e. is_some (Dict.get pending e.0)) l
claimed-keep pending [] = refl
claimed-keep pending (e ∷ l) = ground (arith, claimed-keep pending l)

drop_nil : {A : Type 0} (n : ℕ) → drop {A = A} n [] ≡ []
drop_nil zero = refl
drop_nil (suc n) = refl

drop-drop : {A : Type 0} (m n : ℕ) (xs : List A) → drop n (drop m xs) ≡ drop (m + n) xs
drop-drop zero n xs = ap (λ k. drop k xs) (omega arith)
drop-drop (suc m) n [] = drop_nil n ∙ sym (drop_nil (suc m + n))
drop-drop (suc m) n (x ∷ xs) =
    drop-drop m n xs ∙ ap (λ k. drop k (x ∷ xs)) {x = suc (m + n)} {y = suc m + n} (omega arith)

pub keep_all : {A : Type 0} (xs : List A) → xs ≡ keep (λ _. true) xs
keep_all [] = refl
keep_all (x ∷ xs) = ap (λ l. x ∷ l) (keep_all xs)

pub cursor_for-end : (l : List Entry) (n : ℕ) → (cursor_for l n == "0-0") ≡ true → l ≡ []
cursor_for-end [] n h = refl
cursor_for-end (e ∷ l) n h = absurd (ground (arith, cursor_of-going n, h))

cursor_for-going :
    (l : List Entry) (n : ℕ) → (cursor_for l n == "0-0") ≡ false → position (cursor_for l n) ≡ n
cursor_for-going [] n h = absurd (ground (arith, h))
cursor_for-going (e ∷ l) n h = position-cursor_of n

abbrev pub waiting : Memory → String → String → List Entry
waiting s k start = drop (position start) (claimed s.pending (entries_of (Dict.get s.streams k)))

pub waiting_left :
    (s : Memory) (k start : String) (n : ℕ)
    → let left = drop n (waiting s k start) in
      let next = cursor_for left (position start + n) in
      (next == "0-0") ≡ false → waiting s k next ≡ left
waiting_left s k start n h =
    let entries = claimed s.pending (entries_of (Dict.get s.streams k)) in
    ap (λ m. drop m entries) (cursor_for-going (drop n (waiting s k start)) (position start + n) h)
    ∙ sym (drop-drop (position start) n entries)

abbrev pub memory_streams-IsStreams : IsStreams memory_streams
memory_streams-IsStreams = record {
  entries = λ s k. entries_of (Dict.get s.streams k);
  xrange_lem = λ s k n. refl;
  xlen_lem = λ s k. refl;
  entries-xadd = λ s k f j. entries_of-put s k f j;
  entries-xack = λ s k g i j. refl;
  delivered-xadd = λ s k f j g i. refl;
  delivered-xack = λ s k g i j. get-pop s.pending i j;
  unscanned = λ s k g start. waiting s k start;
  unscanned_start = λ s k g. claimed-keep s.pending (entries_of (Dict.get s.streams k));
  xautoclaim_lem = λ s k g c idle start n. (
    take n (waiting s k start),
    drop n (waiting s k start),
    λ _. true,
    sym (take-append-drop n (waiting s k start)),
    keep_all (take n (waiting s k start)),
    cursor_for-end (drop n (waiting s k start)) (position start + n),
    waiting_left s k start n,
  );
}
