-- ===== src/Agent/Identity.antt =====
-- The id and the port that scripts/worker_agent.py settles on.
use Prim.Native.String.{[], ◌∷◌}
use Prim.Native.Char.{Char, code}
use text.Mathlib.TextLemmas.{nil-append, cons-append}
use fleet_llm_inference.Common.{
  ℕ, String, ◌<>◌, ◌≡◌, refl, ap, sym, ◌∙◌, Bool, true, false, none, ◌==◌, eq_iff, eqb,
  if◌then◌else◌, arith, Bool-cases, Option-cases, inl, inr,
}
use fleet_llm_inference.Common.Raises.{Result, ok}
use fleet_llm_inference.Agent.{
  StateDir, fresh_id, existing_id, get_or_create_worker_id, has_char, after_last, before_first,
  port_of,
}

abbrev filled : String → Bool
filled [] = false
filled (c ∷ s) = true

filled-ne : (s : String) → filled s ≡ true → (s == "") ≡ false
filled-ne s h = elim (Bool-cases (s == "")) [
  | inl e ↦ let q = sym h ∙ ap filled ((eq_iff s "").0 e) in cc
  | inr e ↦ e
]

fresh_id-ne : (s hex : String) → ((s <> ("-" <> hex)) == "") ≡ false
fresh_id-ne s hex = filled-ne _ (full s)
  where
    full : (s : String) → filled (s <> ("-" <> hex)) ≡ true
    full [] = rw (nil-append ("-" <> hex), cons-append "-" "" hex) refl
    full (c ∷ s) = rw (cons-append c s ("-" <> hex)) refl

-- A machine without an override keeps its id: whatever the first run finds or makes, a later run gives the
-- same id and leaves the file as it is, though its host name and uuid differ. Stripping is to leave a
-- made id as it is.
pub get_or_create_worker_id-stable :
    (strip lower : String → String) (hostname hex hostname' hex' : String) (file : StateDir)
    → strip (fresh_id lower hostname hex) ≡ fresh_id lower hostname hex
    → let (file', id) = get_or_create_worker_id strip lower none hostname hex file in
      get_or_create_worker_id strip lower none hostname' hex' file' ≡ (file', id)
unfolding get_or_create_worker_id
get_or_create_worker_id-stable strip lower hostname hex hostname' hex' file h =
    elim (Option-cases (existing_id strip lower file)) [
      | inl e ↦ ground (arith, e, h, fresh_id-ne (lower hostname) hex)
      | inr (id, e) ↦ ground (arith, e)
    ]

has_char-append :
    (k : ℕ) (s t : String) → has_char k (s <> t) ≡ (if has_char k s then true else has_char k t)
unfolding has_char
has_char-append k [] t = rw (nil-append t) refl
has_char-append k (c ∷ s) t = rw (cons-append c s t) (ground (arith, has_char-append k s t))

-- After the last of a character there is the text that follows it.
after_last-append :
    (c : Char) (s t : String) → has_char (code c) t ≡ false → after_last (code c) (s <> (c ∷ t)) ≡ t
unfolding after_last has_char
after_last-append c [] t h = rw (nil-append (c ∷ t)) (ground (arith, h))
after_last-append c (d ∷ s) t h =
    rw (cons-append d s (c ∷ t))
      (ground (arith, h, has_char-append (code c) s (c ∷ t), after_last-append c s t h))

-- A character stays after the last of another one that does not follow it.
has_char-after_last :
    (k : ℕ) (c : Char) (s t : String)
    → eqb (code c) k ≡ false
    → has_char k t ≡ false
    → has_char (code c) (after_last k (s <> (c ∷ t))) ≡ true
unfolding after_last has_char
has_char-after_last k c [] t n h = rw (nil-append (c ∷ t)) (ground (arith, n, h))
has_char-after_last k c (d ∷ s) t n h =
    rw (cons-append d s (c ∷ t))
      (ground (arith, n, h, has_char-append (code c) s (c ∷ t), has_char-after_last k c s t n h))

before_first_lem : (k : ℕ) (t : String) → has_char k t ≡ false → before_first k t ≡ t
unfolding before_first has_char
before_first_lem k [] h = refl
before_first_lem k (c ∷ t) h = ground (arith, h, before_first_lem k t)

-- The port at the end of an address is the one that is used.
pub port_of_lem :
    {I : Type 0} (read : String → Result I) (default port : I) (address digits : String)
    → has_char b':' digits ≡ false
    → has_char b'/' digits ≡ false
    → read digits ≡ ok port
    → port_of read default (address <> (":" ∷ digits)) ≡ port
unfolding port_of
port_of_lem read default port address digits h k e =
    rw
      (
        has_char-after_last b'/' ":" address digits refl k,
        after_last-append ":" address digits h,
        before_first_lem b'/' digits k,
        e,
      )
      refl
