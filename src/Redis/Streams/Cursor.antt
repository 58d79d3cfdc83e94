-- ===== src/Redis/Streams/Cursor.antt =====
-- Cursors for streams in memory: a position is written in ones, and "0-0" is the start.
use Prim.Native.String.{String, [], ◌∷◌}
use Prim.Native.Char.{code}
use fleet_llm_inference.Common.{
  ℕ, zero, suc, false, if◌then◌else◌, eqb, ◌==◌, ◌≡◌, ◌≢◌, refl, ap, arith, eq_iff,
}

abbrev pub cursor_of : ℕ → String
cursor_of zero = ""
cursor_of (suc n) = "1" ∷ cursor_of n

abbrev pub position : String → ℕ
position [] = 0
position (c ∷ rest) = let n = position rest in if eqb (code c) b'1' then suc n else 0

pub position-cursor_of : (n : ℕ) → position (cursor_of n) ≡ n
position-cursor_of zero = refl
position-cursor_of (suc n) = ap suc (position-cursor_of n)

abbrev first : String → ℕ
first [] = 0
first (c ∷ rest) = code c

cursor_of-other : (n : ℕ) → cursor_of n ≢ "0-0"
cursor_of-other zero = λ e. absurd (omega (arith, ap first e))
cursor_of-other (suc n) = λ e. absurd (omega (arith, ap first e))

pub cursor_of-going : (n : ℕ) → (cursor_of n == "0-0") ≡ false
cursor_of-going n = ground (arith, eq_iff (cursor_of n) "0-0", cursor_of-other n)
