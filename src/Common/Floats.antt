-- ===== src/Common/Floats.antt =====
-- Python's floats: the carrier and its operations are parameters.
use Prim.Native.Nat.{ℕ}
use mathlib.Core.Path.{◌≡◌}
use mathlib.Core.Bool.{Bool, true, false}
use mathlib.Core.List.{List, [], ◌∷◌}
use fleet_llm_inference.Common.Tests.{if◌then◌else◌}

-- `literal m n` is the literal that reads m / n, as 0.4 for 4 and 10.
pub record Floats (F : Type 0) : Type 0 where
  pub literal : ℕ → ℕ → F
  pub of_int : ℕ → F
  pub add : F → F → F
  pub sub : F → F → F
  pub mul : F → F → F
  pub div : F → F → F
  pub round : F → ℕ → F
  pub less : F → F → Bool
  pub same : F → F → Bool

-- `<` on floats that are no NaN.
pub record IsOrder {F : Type 0} (ops : Floats F) : Type 0 where
  pub irrefl : (x : F) → ops.less x x ≡ false
  pub trans : (x y z : F) → ops.less x y ≡ true → ops.less y z ≡ true → ops.less x z ≡ true
  pub weak : (x y z : F) → ops.less x z ≡ true → ops.less y z ≡ false → ops.less x y ≡ true

-- `min` and `max` of `x ∷ xs`, the first of several that are least or greatest
unfoldable pub minimum : {F : Type 0} → (F → F → Bool) → F → List F → F
minimum less x [] = x
minimum less x (y ∷ ys) = minimum less (if less y x then y else x) ys

unfoldable pub maximum : {F : Type 0} → (F → F → Bool) → F → List F → F
maximum less x [] = x
maximum less x (y ∷ ys) = maximum less (if less x y then y else x) ys
