-- ===== src/Common/Newlines.antt =====
-- Reading in text mode, for open() and Path.read_text() with the newlines that are their default.
use Prim.Native.String.{String, [], ◌∷◌}
use Prim.Native.Char.{code}
use fleet_llm_inference.Common.{
  Bool, true, false, ◌&&◌, if◌then◌else◌, eqb, ◌≡◌, refl, ap, arith, Bool-cases, inl, inr,
}

-- What reading in text mode makes of the ends of lines: "\r" and "\r\n" become "\n".
unfoldable pub newlines_after : Bool → String → String
newlines_after after_cr [] = []
newlines_after after_cr (c ∷ rest) =
    let others = newlines_after (eqb (code c) 13) rest in
    if eqb (code c) 13
    then "\n" ∷ others
    else if after_cr && eqb (code c) 10
    then others
    else c ∷ others

abbrev pub universal_newlines : String → String
universal_newlines content = newlines_after false content

abbrev pub has_return : String → Bool
has_return [] = false
has_return (c ∷ rest) = if eqb (code c) 13 then true else has_return rest

pub newlines_after_same :
    (content : String) → has_return content ≡ false → newlines_after false content ≡ content
unfolding newlines_after
newlines_after_same [] h = refl
newlines_after_same (c ∷ rest) h = elim (Bool-cases (eqb (code c) 13)) [
  | inl e ↦ absurd (ground (arith, e, h))
  | inr e ↦ rw e (ap (λ (t : String). c ∷ t) (newlines_after_same rest (ground (arith, e, h))))
]
