-- ===== src/Common/Raises.antt =====
-- Code that may raise. Only the class of an exception is kept, and the status of an HTTPException.
use Prim.Native.Nat.{ℕ}
use mathlib.Core.Path.{◌≡◌, refl}
use mathlib.Core.Logic.{◌⊎◌, inl, inr}
use mathlib.Core.Bool.{Bool, true, false}
use mathlib.Core.Option.{Option, none, some}
use mathlib.Core.List.{List, [], ◌∷◌}

pub data Exception : Type 0 where
  value_error key_error index_error zero_division runtime_error no_capacity os_error : Exception
  http : ℕ → Exception

pub data Result {ℓ} (A : Type ℓ) : Type ℓ where
  ok : A → Result A
  raised : Exception → Result A

-- `except RuntimeError`: NoCapacityError is a subclass.
abbrev pub is_runtime_error : Exception → Bool
is_runtime_error runtime_error = true
is_runtime_error no_capacity = true
is_runtime_error _ = false

module _ {ℓ κ} {A : Type ℓ} {B : Type κ} where
  infixl 5 ◌>>=◌
  abbrev pub ◌>>=◌ : Result A → (A → Result B) → Result B
  raised problem >>= next = raised problem
  ok value >>= next = next value

-- `d[k]` by what `d.get(k)` gives
abbrev pub or_key_error {ℓ} : {A : Type ℓ} → Option A → Result A
or_key_error none = raised key_error
or_key_error (some a) = ok a

-- Calls `f` on each element in turn, and stops at the first that raises.
unfoldable pub map_raising {ℓ κ} :
    {A : Type ℓ} {B : Type κ} → (A → Result B) → List A → Result (List B)
map_raising f [] = ok []
map_raising f (x ∷ xs) = do y ← f x; ys ← map_raising f xs; ok (y ∷ ys)

-- What a block that returned has computed on the way.
pub bind_ok {ℓ κ} :
    {A : Type ℓ} {B : Type κ} (first : Result A) (next : A → Result B) {result : B}
    → first >>= next ≡ ok result
    → (value : A) × (first ≡ ok value) × (next value ≡ ok result)
bind_ok (raised problem) next done = cc
bind_ok (ok value) next done = (value, refl, done)

pub ok-injective {ℓ} : {A : Type ℓ} {a b : A} → ok a ≡ ok b → a ≡ b
ok-injective h = cc

pub Result-cases {ℓ} :
    {A : Type ℓ} (r : Result A) → ((a : A) × (r ≡ ok a)) ⊎ ((e : Exception) × (r ≡ raised e))
Result-cases (ok a) = inl (a, refl)
Result-cases (raised e) = inr (e, refl)
