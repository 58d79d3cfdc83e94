-- ===== src/Common/Texts.antt =====
-- Lists of texts used as sets of names.
use Prim.Native.String.{String, ◌++◌ as text_append}
use mathlib.Core.Path.{◌≡◌, refl, sym, subst, ◌∙◌}
use mathlib.Core.Bool.{Bool, true, false}
use mathlib.Core.Option.{Option, none, some}
use mathlib.Core.List.{List, [], ◌∷◌, ◌++◌}
use native.Mathlib.Omega.{arith}
use text.Mathlib.TextLemmas.{append_cancel_left}
use text.Mathlib.TextPositions.{starts_with-append, eq_refl}
use mathlib.Core.Logic.{inl, inr}
use text.Mathlib.Text.{◌==◌, starts_with}
use text.Mathlib.TextEquality.{eq_iff}
use fleet_llm_inference.Common.Tests.{if◌then◌else◌, Bool-cases}

-- `x in xs`
abbrev pub elem : String → List String → Bool
elem x [] = false
elem x (y ∷ ys) = if x == y then true else elem x ys

-- `xs.remove(x)` where `x in xs`, and nothing where not
abbrev pub remove_first : String → List String → List String
remove_first x [] = []
remove_first x (y ∷ ys) = if x == y then ys else y ∷ remove_first x ys

-- `sep.join(texts)`
abbrev pub join : String → List String → String
join sep [] = ""
join sep (x ∷ []) = x
join sep (x ∷ y ∷ texts) = text_append x (text_append sep (join sep (y ∷ texts)))

abbrev pub Distinct : List String → Type 0
Distinct [] = Unit
Distinct (x ∷ xs) = (elem x xs ≡ false) × Distinct xs

-- `if text:` on an optional text: neither `None` nor `""`
abbrev pub truthy : Option String → Option String
truthy none = none
truthy (some text) = if text == "" then none else some text

pub elem-append :
    (x : String) (xs ys : List String) → elem x (xs ++ ys) ≡ (if elem x xs then true else elem x ys)
elem-append x [] ys = refl
elem-append x (y ∷ xs) ys = ground (arith, elem-append x xs ys)

pub elem-remove_first :
    (x y : String) (xs : List String)
    → Distinct xs
    → elem x (remove_first y xs) ≡ (if y == x then false else elem x xs)
elem-remove_first x y [] h = ground arith
elem-remove_first x y (z ∷ xs) h =
    ground (arith, elem-remove_first x y xs h.1, eq_iff x y, eq_iff y x, eq_iff x z, eq_iff y z)

pub Distinct-remove_first :
    (y : String) (xs : List String) → Distinct xs → Distinct (remove_first y xs)
Distinct-remove_first y [] h = tt
Distinct-remove_first y (z ∷ xs) h =
    ground (arith, Distinct-remove_first y xs h.1, elem-remove_first z y xs h.1)

pub Distinct-append_one :
    (x : String) (xs : List String) → Distinct xs → elem x xs ≡ false → Distinct (xs ++ x ∷ [])
Distinct-append_one x [] h k = (refl, tt)
Distinct-append_one x (y ∷ xs) h k =
    ground (arith, Distinct-append_one x xs h.1, elem-append y xs (x ∷ []), eq_iff x y, eq_iff y x)

-- Keys under one prefix are told apart by their rest.
pub eq-append_left : (p a b : String) → (text_append p a == text_append p b) ≡ (a == b)
eq-append_left p a b = elim (Bool-cases (a == b)) [
  | inl e ↦
      subst (λ c. (text_append p a == text_append p c) ≡ (a == b)) ((eq_iff a b).0 e)
        (eq_refl (text_append p a) ∙ sym e)
  | inr e ↦ elim (Bool-cases (text_append p a == text_append p b)) [
    | inl f ↦ absurd (
        ground (
          arith,
          e,
          eq_iff a b,
          append_cancel_left p a b ((eq_iff (text_append p a) (text_append p b)).0 f),
        ))
    | inr f ↦ f ∙ sym e
  ]
]

-- A key under a prefix is no text that starts otherwise.
pub ne-of_prefix : (p a k : String) → starts_with k p ≡ false → (text_append p a == k) ≡ false
ne-of_prefix p a k h = elim (Bool-cases (text_append p a == k)) [
  | inl e ↦
      let q =
        subst (λ t. starts_with t p ≡ true) ((eq_iff (text_append p a) k).0 e)
          (starts_with-append p a) in
      cc
  | inr e ↦ e
]
