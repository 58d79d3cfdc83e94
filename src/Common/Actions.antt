-- ===== src/Common/Actions.antt =====
-- Methods that change an object and may raise: what was written before an exception stays written.
pub mod Post
use mathlib.Core.Path.{◌≡◌, ap}
use fleet_llm_inference.Common.Raises.{Exception, Result, ok, raised}

abbrev pub Action : Type 0 → Type 0 → Type 0
Action S A = S → S × Result A

module _ {S A : Type 0} where
  abbrev pub pure : A → Action S A
  pure a s = (s, ok a)

  abbrev pub raise : Exception → Action S A
  raise e s = (s, raised e)

  -- `d[k]` by what `d.get(k)` gives
  abbrev pub lift : Result A → Action S A
  lift r s = (s, r)

module _ {S A B : Type 0} where
  abbrev pub and_then : S × Result A → (A → Action S B) → S × Result B
  and_then (s, ok a) f = f a s
  and_then (s, raised e) f = (s, raised e)

  pub and_then-ok :
      (p : S × Result A) (f : A → Action S B) (a : A) → p.1 ≡ ok a → and_then p f ≡ f a p.0
  and_then-ok p f a h = ap (λ r. and_then (p.0, r) f) h

  pub and_then-raised :
      (p : S × Result A) (f : A → Action S B) (e : Exception)
      → p.1 ≡ raised e
      → and_then p f ≡ (p.0, raised e)
  and_then-raised p f e h = ap (λ r. and_then (p.0, r) f) h

  infixl 5 ◌>>=◌ ◌>>◌
  abbrev pub ◌>>=◌ : Action S A → (A → Action S B) → Action S B
  ◌>>=◌ m f s = and_then (m s) f

  abbrev pub ◌>>◌ : Action S A → Action S B → Action S B
  m >> n = m >>= λ _. n

abbrev pub get_state : {S : Type 0} → Action S S
get_state s = (s, ok s)

abbrev pub set_state : {S : Type 0} → S → Action S (Unit {0})
set_state s _ = (s, ok tt)

-- `try: … except …:`, where the handler raises again what it does not take.
abbrev pub handled : {S A : Type 0} → S × Result A → (Exception → Action S A) → S × Result A
handled (s, ok a) handler = (s, ok a)
handled (s, raised e) handler = handler e s

abbrev pub catch : {S A : Type 0} → Action S A → (Exception → Action S A) → Action S A
catch m handler s = handled (m s) handler
