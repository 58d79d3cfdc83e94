-- ===== src/Common/Actions/Post.antt =====
-- What holds after a method: `R` of the object, however it ends, and `P` of what it returns.
use fleet_llm_inference.Common.Raises.{Exception, Result, ok, raised}
use fleet_llm_inference.Common.Actions.{Action, and_then, handled}

abbrev pub Returns : {A : Type 0} → (A → Type 0) → Result A → Type 0
Returns P (ok a) = P a
Returns P (raised e) = Unit

pub Returns-anything : {A : Type 0} (r : Result A) → Returns (λ _. Unit {0}) r
Returns-anything (ok a) = tt
Returns-anything (raised e) = tt

module _ {S A : Type 0} where
  abbrev pub Post : (S → Type 0) → (A → Type 0) → S × Result A → Type 0
  Post R P p = R p.0 × Returns P p.1

  module _ {B : Type 0} {R : S → Type 0} {P : A → Type 0} (K : S × Result B → Type 0) where
    -- `K` after a method and the rest that follows it.
    pub and_then-Post :
        (p : S × Result A) (f : A → Action S B)
        → Post R P p
        → ((a : A) (s : S) → R s → P a → K (f a s))
        → ((e : Exception) (s : S) → R s → K (s, raised e))
        → K (and_then p f)
    and_then-Post (s, ok a) f h returns raises = returns a s h.0 h.1
    and_then-Post (s, raised e) f h returns raises = raises e s h.0

  module _ {R : S → Type 0} {P : A → Type 0} (K : S × Result A → Type 0) where
    -- `K` after a method whose exceptions are handled.
    pub handled-Post :
        (p : S × Result A) (handler : Exception → Action S A)
        → Post R P p
        → ((a : A) (s : S) → R s → P a → K (s, ok a))
        → ((e : Exception) (s : S) → R s → K (handler e s))
        → K (handled p handler)
    handled-Post (s, ok a) handler h returns raises = returns a s h.0 h.1
    handled-Post (s, raised e) handler h returns raises = raises e s h.0
