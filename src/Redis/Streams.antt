-- ===== src/Redis/Streams.antt =====
-- What the job queue asks of the streams of Redis, and what it relies on. An entry is an id with its
-- fields; `delivered` is the `times_delivered` of XPENDING for one entry, `none` where it is not
-- pending.
pub mod Memory
pub mod Cursor
use fleet_llm_inference.Common.{
  ℕ, String, ◌≡◌, Bool, true, false, Option, none, some, List, [], ◌∷◌, ◌++◌, ◌==◌, length, take,
  keep, is_some, if◌then◌else◌,
}
use fleet_llm_inference.Dict.{Dict}

abbrev pub Entry : Type 0
Entry = String × Dict String

pub record Streams : Type 1 where
  pub State : Type 0
  pub xadd : State → String → Dict String → State × String
  pub xreadgroup : State → String → String → String → ℕ → State × List Entry
  pub xack : State → String → String → String → State
  pub xlen : State → String → ℕ
  pub xrange : State → String → ℕ → List Entry
  pub delivered : State → String → String → String → Option ℕ
  -- The stream, the group, the consumer, the idle time, where to start, and how many at most.
  pub xautoclaim : State → String → String → String → ℕ → String → ℕ → State × String × List Entry

pub record IsStreams (R : Streams) : Type 0 where
  -- All entries of a stream, the oldest first.
  pub entries : R.State → String → List Entry
  pub xrange_lem : (s : R.State) (k : String) (n : ℕ) → R.xrange s k n ≡ take n (entries s k)
  pub xlen_lem : (s : R.State) (k : String) → R.xlen s k ≡ length (entries s k)
  pub entries-xadd :
      (s : R.State) (k : String) (f : Dict String) (j : String)
      → entries (R.xadd s k f).0 j
        ≡ (if k == j then entries s j ++ ((R.xadd s k f).1, f) ∷ [] else entries s j)
  pub entries-xack : (s : R.State) (k g i j : String) → entries (R.xack s k g i) j ≡ entries s j
  pub delivered-xadd :
      (s : R.State) (k : String) (f : Dict String) (j g i : String)
      → R.delivered (R.xadd s k f).0 j g i ≡ R.delivered s j g i
  pub delivered-xack :
      (s : R.State) (k g i j : String)
      → R.delivered (R.xack s k g i) k g j ≡ (if i == j then none else R.delivered s k g j)
  -- The pending entries of a group from a cursor of XAUTOCLAIM on, the oldest first.
  pub unscanned : R.State → String → String → String → List Entry
  pub unscanned_start :
      (s : R.State) (k g : String)
      → unscanned s k g "0-0" ≡ keep (λ e. is_some (R.delivered s k g e.0)) (entries s k)
  -- XAUTOCLAIM scans some of them, gives those that it claims, and the cursor of those that are left;
  -- with none left the cursor is "0-0".
  pub xautoclaim_lem :
      (s : R.State) (k g c : String) (idle : ℕ) (start : String) (n : ℕ)
      → let (s', next, found) = R.xautoclaim s k g c idle start n in
        (scanned : List Entry) × (left : List Entry) × (claims : Entry → Bool) × (unscanned s k g
            start
          ≡ scanned ++ left)
        × (found ≡ keep claims scanned)
        × ((next == "0-0") ≡ true → left ≡ [])
        × ((next == "0-0") ≡ false → unscanned s' k g next ≡ left)
