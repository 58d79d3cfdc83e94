-- ===== src/Redis/Codec.antt =====
-- Texts for values of some types: codecs that meet what the code relies on of JSON.
use Prim.Native.String.{[], ◌∷◌}
use Prim.Native.Char.{Char, code}
use fleet_llm_inference.Common.{
  ℕ, zero, suc, String, ◌≡◌, refl, ap, Option, none, some, List, length, eqb, if◌then◌else◌,
}
use fleet_llm_inference.Common.Raises.{Result, ok, raised, value_error}
use fleet_llm_inference.Redis.{Json, IsJson}

-- `write` puts a value before a text; `read` takes it off.
pub record Codec (A : Type 0) : Type 0 where
  pub write : A → String → String
  pub read : String → Option (A × String)
  pub read-write : (a : A) (rest : String) → read (write a rest) ≡ some (a, rest)

abbrev pub then_read : {A B : Type 0} → Option (A × String) → (A → String → Option B) → Option B
then_read none next = none
then_read (some (a, rest)) next = next a rest

abbrev write_nat : ℕ → String → String
write_nat zero rest = "0" ∷ rest
write_nat (suc n) rest = "1" ∷ write_nat n rest

abbrev more : Option (ℕ × String) → Option (ℕ × String)
more none = none
more (some (n, rest)) = some (suc n, rest)

abbrev read_nat : String → Option (ℕ × String)
read_nat [] = none
read_nat (c ∷ t) = let others = read_nat t in if eqb (code c) b'0' then some (0, t) else more others

pub read_nat-write_nat : (n : ℕ) (rest : String) → read_nat (write_nat n rest) ≡ some (n, rest)
read_nat-write_nat zero rest = refl
read_nat-write_nat (suc n) rest = ap more (read_nat-write_nat n rest)

abbrev pub nat_codec : Codec ℕ
nat_codec = record { write = write_nat; read = read_nat; read-write = read_nat-write_nat }

abbrev write_text : String → String → String
write_text [] rest = "." ∷ rest
write_text (c ∷ s) rest = "," ∷ (c ∷ write_text s rest)

abbrev before : Char → Option (String × String) → Option (String × String)
before c none = none
before c (some (s, rest)) = some (c ∷ s, rest)

abbrev read_text : String → Option (String × String)
read_text [] = none
read_text (d ∷ []) = if eqb (code d) b'.' then some ("", "") else none
read_text (d ∷ c ∷ t) =
    let others = read_text t in if eqb (code d) b'.' then some ("", c ∷ t) else before c others

pub read_text-write_text : (s rest : String) → read_text (write_text s rest) ≡ some (s, rest)
read_text-write_text [] [] = refl
read_text-write_text [] (c ∷ rest) = refl
read_text-write_text (c ∷ s) rest = ap (before c) (read_text-write_text s rest)

abbrev pub text_codec : Codec String
text_codec = record { write = write_text; read = read_text; read-write = read_text-write_text }

module _ {A B : Type 0} (a_codec : Codec A) (b_codec : Codec B) where
  abbrev pub pair_codec : Codec (A × B)
  pair_codec = record {
    write = λ p rest. a_codec.write p.0 (b_codec.write p.1 rest);
    read = λ t.
        then_read (a_codec.read t)
          (λ a u. then_read (b_codec.read u) (λ b rest. some ((a, b), rest)));
    read-write = λ p rest.
        rw (a_codec.read-write p.0 (b_codec.write p.1 rest))
          (rw (b_codec.read-write p.1 rest) refl);
  }

module _ {A B : Type 0} (a_codec : Codec A) where
  -- A type that goes into another one and back.
  abbrev pub mapped_codec : (f : B → A) (g : A → B) → ((b : B) → g (f b) ≡ b) → Codec B
  mapped_codec f g h = record {
    write = λ b. a_codec.write (f b);
    read = λ t. then_read (a_codec.read t) (λ a rest. some (g a, rest));
    read-write = λ b rest. rw (a_codec.read-write (f b) rest) (ap (λ x. some (x, rest)) (h b));
  }

module _ {A : Type 0} (codec : Codec A) where
  abbrev write_each : List A → String → String
  write_each List.[] rest = rest
  write_each (List.◌∷◌ a l) rest = codec.write a (write_each l rest)

  abbrev read_each : ℕ → String → Option (List A × String)
  read_each zero t = some (List.[], t)
  read_each (suc n) t =
      then_read (codec.read t)
        (λ a u. then_read (read_each n u) (λ l rest. some (List.◌∷◌ a l, rest)))

  pub read_each-write_each :
      (l : List A) (rest : String) → read_each (length l) (write_each l rest) ≡ some (l, rest)
  read_each-write_each List.[] rest = refl
  read_each-write_each (List.◌∷◌ a l) rest =
      rw (codec.read-write a (write_each l rest)) (rw (read_each-write_each l rest) refl)

  -- The length of a list, and its elements.
  abbrev pub list_codec : Codec (List A)
  list_codec = record {
    write = λ l rest. nat_codec.write (length l) (write_each l rest);
    read = λ t. then_read (nat_codec.read t) read_each;
    read-write = λ l rest.
        rw (nat_codec.read-write (length l) (write_each l rest)) (read_each-write_each l rest);
  }

  abbrev value_of : Option (A × String) → Result A
  value_of none = raised value_error
  value_of (some (a, rest)) = ok a

  abbrev pub json_of : Json A
  json_of = record { dumps = λ a. codec.write a ""; loads = λ t. value_of (codec.read t) }

  pub json_of-IsJson : IsJson json_of
  json_of-IsJson = record { loads-dumps = λ a. rw (codec.read-write a "") refl }
