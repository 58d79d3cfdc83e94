-- ===== src/Common/Packing.antt =====
-- Greedy packing of a sequence under a budget: an element that still fits is selected, any other is
-- skipped.
use mathlib.Core.List.Perm
use mathlib.Core.List.{perm_middle, perm_append_singleton, append-nil, append_assoc}
use Prim.Native.Nat.{ℕ, ◌+◌, ◌-◌, ◌≤◌, ◌<◌}
use mathlib.Core.Path.{◌≡◌, subst}
use mathlib.Core.Logic.{inl, inr}
use mathlib.Core.Bool.{Bool, false}
use mathlib.Core.List.{List, [], ◌∷◌, ◌++◌, Perm}
use native.Mathlib.Omega.{arith}
use fleet_llm_inference.Common.Sort.{IsSorted}
use fleet_llm_inference.Common.Tests.{if◌then◌else◌, leb, leb→le, Bool-cases}
use fleet_llm_inference.Common.Lists.{All, All-append, sum_by, sum_by-append}

pub record Pack (A : Type 0) : Type 0 where
  pub selected : List A
  pub discarded : List A
  pub remaining : ℕ

module _ {A : Type 0} (cost : A → ℕ) where
  unfoldable pub pack_one : Pack A → A → Pack A
  pack_one p x =
      if leb (cost x) p.remaining
      then record p { selected = p.selected ++ x ∷ []; remaining = p.remaining - cost x }
      else record p { discarded = p.discarded ++ x ∷ [] }

  unfoldable pub pack_loop : List A → Pack A → Pack A
  unfolding pack_one
  pack_loop [] p = p
  pack_loop (x ∷ xs) p = pack_loop xs (pack_one p x)

  unfoldable pub pack : List A → ℕ → Pack A
  unfolding pack_loop
  pack xs budget = pack_loop xs (record { selected = []; discarded = []; remaining = budget })

  -- `p` is what packing `xs` under the budget may leave.
  pub record IsPacked (xs : List A) (budget : ℕ) (p : Pack A) : Type 0 where
    pub spent : sum_by cost p.selected + p.remaining ≡ budget
    pub complete : Perm (p.selected ++ p.discarded) xs
    pub maximal : All (λ x. p.remaining < cost x) p.discarded

  lower-All : (m n : ℕ) (xs : List A) → m ≤ n → All (λ x. n < cost x) xs → All (λ x. m < cost x) xs
  lower-All m n [] h k = tt
  lower-All m n (x ∷ xs) h k = (omega arith, lower-All m n xs h k.1)

  pack_one-IsPacked :
      (xs : List A) (budget : ℕ) (p : Pack A) (x : A)
      → IsPacked xs budget p
      → IsPacked (xs ++ x ∷ []) budget (pack_one p x)
  unfolding pack_one
  pack_one-IsPacked xs budget p x h = elim (Bool-cases (leb (cost x) p.remaining)) [
    | inl fits ↦ rw fits (record {
      spent = omega (arith, h.spent, sum_by-append cost p.selected (x ∷ []), leb→le _ _ fits);
      complete = rw append_assoc (
          Perm.trans (perm_middle p.selected p.discarded)
            (Perm.trans (Perm.cons x h.complete) (Perm.symm (perm_append_singleton x xs))));
      maximal = lower-All _ p.remaining p.discarded (omega arith) h.maximal;
    })
    | inr skip ↦ rw skip (record {
      spent = h.spent;
      complete = rw (← append_assoc) (Perm.append_right (x ∷ []) h.complete);
      maximal = All-append _ p.discarded (x ∷ []) h.maximal (ground arith, tt);
    })
  ]

  pack_loop-IsPacked :
      (xs ys : List A) (budget : ℕ) (p : Pack A)
      → IsPacked xs budget p
      → IsPacked (xs ++ ys) budget (pack_loop ys p)
  unfolding pack_loop
  pack_loop-IsPacked xs [] budget p h = rw append-nil h
  pack_loop-IsPacked xs (y ∷ ys) budget p h =
      subst (λ l. IsPacked l budget (pack_loop ys (pack_one p y))) (append_assoc xs (y ∷ []) ys)
        (pack_loop-IsPacked (xs ++ y ∷ []) ys budget (pack_one p y)
          (pack_one-IsPacked xs budget p y h))

  -- Packing spends no more than the budget, loses nothing, and skips only what no longer fits.
  pub pack-IsPacked : (xs : List A) (budget : ℕ) → IsPacked xs budget (pack xs budget)
  unfolding pack
  pack-IsPacked xs budget =
      pack_loop-IsPacked [] xs budget _
        (record { spent = omega arith; complete = Perm.nil; maximal = tt })

module _ {A : Type 0} (less : A → A → Bool) where
  IsSorted-drop :
      (xs : List A) (x : A) (ys : List A) → IsSorted less (xs ++ x ∷ ys) → IsSorted less (xs ++ ys)
  IsSorted-drop [] x ys h = h.1
  IsSorted-drop (y ∷ xs) x ys h = (All-drop xs h.0, IsSorted-drop xs x ys h.1)
    where
      All-drop :
          (zs : List A)
          → All (λ z. less z y ≡ false) (zs ++ x ∷ ys)
          → All (λ z. less z y ≡ false) (zs ++ ys)
      All-drop [] k = k.1
      All-drop (z ∷ zs) k = (k.0, All-drop zs k.1)

  pack_one-IsSorted :
      (cost : A → ℕ) (p : Pack A) (y : A) (ys : List A)
      → IsSorted less (p.selected ++ y ∷ ys)
      → IsSorted less ((pack_one cost p y).selected ++ ys)
  unfolding pack_one
  pack_one-IsSorted cost p y ys h = elim (Bool-cases (leb (cost y) p.remaining)) [
    | inl fits ↦ rw (fits, append_assoc) h
    | inr skip ↦ rw skip (IsSorted-drop p.selected y ys h)
  ]

  pack_loop-IsSorted :
      (cost : A → ℕ) (ys : List A) (p : Pack A)
      → IsSorted less (p.selected ++ ys)
      → IsSorted less (pack_loop cost ys p).selected
  unfolding pack_loop
  pack_loop-IsSorted cost [] p h = rw append-nil at h
  pack_loop-IsSorted cost (y ∷ ys) p h =
      pack_loop-IsSorted cost ys (pack_one cost p y) (pack_one-IsSorted cost p y ys h)

  -- Packing keeps the order of what it selects.
  pub pack-IsSorted :
      (cost : A → ℕ) (xs : List A) (budget : ℕ)
      → IsSorted less xs
      → IsSorted less (pack cost xs budget).selected
  unfolding pack
  pack-IsSorted cost xs budget h = pack_loop-IsSorted cost xs _ h
