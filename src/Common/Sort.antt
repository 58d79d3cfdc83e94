-- ===== src/Common/Sort.antt =====
-- The built-in `sorted`, which is stable. `less y x` says that `y` has to stand before `x`.
use mathlib.Core.List.Perm
use fleet_llm_inference.Common.Tests.{if◌then◌else◌, Bool-cases}
use fleet_llm_inference.Common.Lists.{length, All, All-append_right}
use Prim.Native.Nat.{◌+◌}
use mathlib.Core.Path.{◌≡◌, refl}
use mathlib.Core.Logic.{inl, inr}
use mathlib.Core.Bool.{Bool, true, false}
use mathlib.Core.List.{List, [], ◌∷◌, ◌++◌, map, Perm}
use native.Mathlib.Omega.{arith}

module _ {ℓ} {A : Type ℓ} (less : A → A → Bool) where
  unfoldable pub insert : A → List A → List A
  insert x [] = x ∷ []
  insert x (y ∷ ys) = if less y x then y ∷ insert x ys else x ∷ y ∷ ys

  unfoldable pub sorted : List A → List A
  unfolding insert
  sorted [] = []
  sorted (x ∷ xs) = insert x (sorted xs)

  -- No later element has to stand before an earlier one.
  abbrev pub IsSorted : List A → Type 0
  IsSorted [] = Unit
  IsSorted (x ∷ xs) = All (λ y. less y x ≡ false) xs × IsSorted xs

  -- Across a cut of a sorted list, nothing behind has to stand before anything in front.
  pub IsSorted-append :
      (xs ys : List A) → IsSorted (xs ++ ys) → All (λ x. All (λ y. less y x ≡ false) ys) xs
  IsSorted-append [] ys h = tt
  IsSorted-append (x ∷ xs) ys h =
      (All-append_right (λ y. less y x ≡ false) xs ys h.0, IsSorted-append xs ys h.1)

  insert-perm : (x : A) (xs : List A) → Perm (insert x xs) (x ∷ xs)
  unfolding insert
  insert-perm x [] = Perm.refl _
  insert-perm x (y ∷ ys) = elim (Bool-cases (less y x)) [
    | inl e ↦ rw e (Perm.trans (Perm.cons y (insert-perm x ys)) (Perm.swap x y ys))
    | inr e ↦ rw e (Perm.refl _)
  ]

  pub sorted-perm : (xs : List A) → Perm (sorted xs) xs
  unfolding sorted
  sorted-perm [] = Perm.refl []
  sorted-perm (x ∷ xs) = Perm.trans (insert-perm x (sorted xs)) (Perm.cons x (sorted-perm xs))

  length-insert : (x : A) (xs : List A) → length (insert x xs) ≡ length xs + 1
  unfolding insert
  length-insert x [] = omega arith
  length-insert x (y ∷ ys) = ground (arith, length-insert x ys)

  pub length-sorted : (xs : List A) → length (sorted xs) ≡ length xs
  unfolding sorted
  length-sorted [] = refl
  length-sorted (x ∷ xs) = omega (arith, length-insert x (sorted xs), length-sorted xs)

  module _ (irrefl : (x : A) → less x x ≡ false)
      (trans : (x y z : A) → less x y ≡ true → less y z ≡ true → less x z ≡ true)
      (weak : (x y z : A) → less x z ≡ true → less y z ≡ false → less x y ≡ true) where
    asym : (x y : A) → less x y ≡ true → less y x ≡ false
    asym x y h = ground (arith, trans x y x, irrefl x)

    All-lower :
        (x y : A) (ys : List A)
        → less y x ≡ false
        → All (λ z. less z y ≡ false) ys
        → All (λ z. less z x ≡ false) ys
    All-lower x y [] h k = tt
    All-lower x y (z ∷ ys) h k = (ground (arith, weak z y x), All-lower x y ys h k.1)

    All-insert_lower :
        (y x : A) (xs : List A)
        → less x y ≡ false
        → All (λ z. less z y ≡ false) xs
        → All (λ z. less z y ≡ false) (insert x xs)
    unfolding insert
    All-insert_lower y x [] h k = (h, tt)
    All-insert_lower y x (z ∷ xs) h k = ground (arith, All-insert_lower y x xs h k.1)

    insert-IsSorted : (x : A) (xs : List A) → IsSorted xs → IsSorted (insert x xs)
    unfolding insert
    insert-IsSorted x [] s = (tt, tt)
    insert-IsSorted x (y ∷ ys) s = elim (Bool-cases (less y x)) [
      | inl e ↦ rw e (All-insert_lower y x ys (asym y x e) s.0, insert-IsSorted x ys s.1)
      | inr e ↦ rw e ((e, All-lower x y ys e s.0), s)
    ]

    pub sorted-IsSorted : (xs : List A) → IsSorted (sorted xs)
    unfolding sorted
    sorted-IsSorted [] = tt
    sorted-IsSorted (x ∷ xs) = insert-IsSorted x (sorted xs) (sorted-IsSorted xs)

module _ {ℓ κ} {A : Type ℓ} {B : Type κ} (less : B → B → Bool) (f : A → B) where
  insert-map :
      (x : A) (xs : List A)
      → insert less (f x) (map f xs) ≡ map f (insert (λ a b. less (f a) (f b)) x xs)
  unfolding insert
  insert-map x [] = refl
  insert-map x (y ∷ ys) = ground (arith, insert-map x ys)

  -- To sort images is to sort by their keys.
  pub sorted-map :
      (xs : List A) → sorted less (map f xs) ≡ map f (sorted (λ a b. less (f a) (f b)) xs)
  unfolding sorted
  sorted-map [] = refl
  sorted-map (x ∷ xs) = rw (sorted-map xs) (insert-map x (sorted (λ a b. less (f a) (f b)) xs))
