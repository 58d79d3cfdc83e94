-- ===== src/Dict.antt =====
-- Python's `dict` with string keys. A write to a present key keeps its place; a new key goes to
-- the end.
use fleet_llm_inference.Common.{
  String, ◌≡◌, refl, Option, none, some, List, [], ◌∷◌, arith, ◌==◌, eq_iff, if◌then◌else◌,
}

pub record Dict {ℓ} (V : Type ℓ) : Type ℓ where
  pub entries : List (String × V)

module _ {ℓ} {V : Type ℓ} where
  unfoldable pub lookup : String → List (String × V) → Option V
  lookup k [] = none
  lookup k ((j, v) ∷ l) = if j == k then some v else lookup k l

  unfoldable pub write : String → V → List (String × V) → List (String × V)
  write k v [] = (k, v) ∷ []
  write k v ((j, w) ∷ l) = if j == k then (j, v) ∷ l else (j, w) ∷ write k v l

  unfoldable pub without : String → List (String × V) → List (String × V)
  without k [] = []
  without k ((j, v) ∷ l) = let rest = without k l in if j == k then rest else (j, v) ∷ rest

  -- {}
  unfoldable pub empty : Dict V
  empty = record { entries = [] }

  -- d.get(k)
  unfoldable pub get : Dict V → String → Option V
  unfolding lookup
  get d k = lookup k d.entries

  -- d[k] = v
  unfoldable pub put : Dict V → String → V → Dict V
  unfolding write
  put d k v = record { entries = write k v d.entries }

  -- d.pop(k, None)
  unfoldable pub pop : Dict V → String → Dict V
  unfolding without
  pop d k = record { entries = without k d.entries }

  lookup-write :
      (k j : String) (v : V) (l : List (String × V))
      → lookup j (write k v l) ≡ (if k == j then some v else lookup j l)
  unfolding lookup write
  lookup-write k j v [] = refl
  lookup-write k j v ((i, w) ∷ l) =
      ground (arith, lookup-write k j v l, eq_iff i k, eq_iff i j, eq_iff k j)

  lookup-without :
      (k j : String) (l : List (String × V))
      → lookup j (without k l) ≡ (if k == j then none else lookup j l)
  unfolding lookup without
  lookup-without k j [] = ground arith
  lookup-without k j ((i, w) ∷ l) =
      ground (arith, lookup-without k j l, eq_iff i k, eq_iff i j, eq_iff k j)

  pub get-put :
      (d : Dict V) (k j : String) (v : V) → get (put d k v) j ≡ (if k == j then some v else get d j)
  unfolding get put
  get-put d k j v = lookup-write k j v d.entries

  pub get-pop : (d : Dict V) (k j : String) → get (pop d k) j ≡ (if k == j then none else get d j)
  unfolding get pop
  get-pop d k j = lookup-without k j d.entries

pub get-empty {ℓ} : {V : Type ℓ} (k : String) → get (empty {V = V}) k ≡ none
unfolding get empty
get-empty k = refl

pub ruleset dict_laws = (get-empty, get-put, get-pop)
