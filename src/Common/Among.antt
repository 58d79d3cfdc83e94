-- ===== src/Common/Among.antt =====
-- Which numbers stand in a list.
use fleet_llm_inference.Common.{
  ℕ, Bool, true, false, List, [], ◌∷◌, if◌then◌else◌, eqb, ltb, ◌≡◌, refl, sym, ap, ◌∙◌, arith,
  Perm, sum_by, sum_by-perm, All,
}

abbrev pub among : ℕ → List ℕ → Bool
among h [] = false
among h (x ∷ xs) = if eqb h x then true else among h xs

abbrev pub reverse_onto : List ℕ → List ℕ → List ℕ
reverse_onto [] ys = ys
reverse_onto (x ∷ xs) ys = reverse_onto xs (x ∷ ys)

one_if : ℕ → ℕ → ℕ
one_if h x = if eqb h x then 1 else 0

among-sum_by : (h : ℕ) (xs : List ℕ) → among h xs ≡ ltb 0 (sum_by (one_if h) xs)
unfolding one_if
among-sum_by h [] = refl
among-sum_by h (x ∷ xs) = ground (arith, among-sum_by h xs)

pub among-perm : (h : ℕ) {xs ys : List ℕ} → Perm xs ys → among h xs ≡ among h ys
among-perm h {xs} {ys} p =
    among-sum_by h xs ∙ ap (λ n. ltb 0 n) (sum_by-perm (one_if h) p) ∙ sym (among-sum_by h ys)

pub among-reverse_onto :
    (h : ℕ) (xs ys : List ℕ)
    → among h (reverse_onto xs ys) ≡ (if among h xs then true else among h ys)
among-reverse_onto h [] ys = refl
among-reverse_onto h (x ∷ xs) ys = among-reverse_onto h xs (x ∷ ys) ∙ ground arith

pub All-among :
    (hs ys : List ℕ)
    → ((h : ℕ) → among h ys ≡ true → among h hs ≡ true)
    → All (λ h. among h hs ≡ true) ys
All-among hs [] inside = tt
All-among hs (y ∷ ys) inside =
    (inside y (ground arith), All-among hs ys (λ h k. inside h (ground (arith, k))))
