-- ===== src/Common/Split.antt =====
-- `text.split(sep)` for a separator of one character.
use Prim.Native.Char.{Char, code}
use Prim.Native.String.{[], ◌∷◌}
use mathlib.Core.List.{List}
use fleet_llm_inference.Common.{
  ℕ, String, ◌<>◌, eqb, true, false, if◌then◌else◌, ◌≡◌, refl, ap, ◌∙◌, arith, All, join,
}
use text.Mathlib.TextLemmas.{nil-append, cons-append}

abbrev pub prepend : Char → List String → List String
prepend c List.[] = List.◌∷◌ (c ∷ "") List.[]
prepend c (List.◌∷◌ part parts) = List.◌∷◌ (c ∷ part) parts

unfoldable pub split : ℕ → String → List String
split sep [] = List.◌∷◌ "" List.[]
split sep (c ∷ s) =
    let rest = split sep s in if eqb (code c) sep then List.◌∷◌ "" rest else prepend c rest

-- The separator is not in the text.
abbrev pub Lacks : ℕ → String → Type 0
Lacks sep [] = Unit
Lacks sep (c ∷ s) = (eqb (code c) sep ≡ false) × Lacks sep s

pub split-whole : (sep : ℕ) (s : String) → Lacks sep s → split sep s ≡ List.◌∷◌ s List.[]
unfolding split
split-whole sep [] h = refl
split-whole sep (c ∷ s) h = rw h.0 (ap (prepend c) (split-whole sep s h.1))

eqb_refl : (n : ℕ) → eqb n n ≡ true
eqb_refl n = ground arith

-- The text up to a separator is the first part.
pub split-append :
    (sep : Char) (s rest : String)
    → Lacks (code sep) s
    → split (code sep) (s <> ((sep ∷ "") <> rest)) ≡ List.◌∷◌ s (split (code sep) rest)
unfolding split
split-append sep [] rest h =
    rw (nil-append ((sep ∷ "") <> rest))
      (rw (cons-append sep "" rest) (rw (nil-append rest) (rw (eqb_refl (code sep)) refl)))
split-append sep (c ∷ s) rest h =
    rw (cons-append c s ((sep ∷ "") <> rest))
      (rw h.0 (ap (prepend c) (split-append sep s rest h.1)))

-- The parts of a text that was joined from them.
pub split-join :
    (sep : Char) (s : String) (parts : List String)
    → Lacks (code sep) s
    → All (Lacks (code sep)) parts
    → split (code sep) (join (sep ∷ "") (List.◌∷◌ s parts)) ≡ List.◌∷◌ s parts
split-join sep s List.[] h a = split-whole (code sep) s h
split-join sep s (List.◌∷◌ t parts) h a =
    split-append sep s (join (sep ∷ "") (List.◌∷◌ t parts)) h
    ∙ ap (List.◌∷◌ s) (split-join sep t parts a.0 a.1)
