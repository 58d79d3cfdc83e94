-- ===== src/Redis/Memory.antt =====
-- A store of dictionaries that meets what the code relies on.
use fleet_llm_inference.Common.{
  String, ◌≡◌, refl, true, Option, none, some, List, [], ◌∷◌, ◌++◌, ◌==◌, arith, eq_iff, eq_refl,
  elem, elem-append, elem-remove_first, Distinct, Distinct-remove_first, Distinct-append_one,
  remove_first, if◌then◌else◌, Bool-cases, inl, inr,
}
use fleet_llm_inference.Dict
use fleet_llm_inference.Dict.{Dict, get-put, get-pop}
use fleet_llm_inference.Redis.{KeyStore, IsKeyStore}

-- A set of texts, kept as a list without repetition.
pub record TextSet : Type 0 where
  pub elements : List String
  pub distinct : Distinct elements

abbrev pub members_of : Option TextSet → List String
members_of none = []
members_of (some t) = t.elements

pub members_of-Distinct : (o : Option TextSet) → Distinct (members_of o)
members_of-Distinct none = tt
members_of-Distinct (some t) = t.distinct

abbrev pub include : String → List String → List String
include x xs = if elem x xs then xs else xs ++ x ∷ []

pub include-Distinct : (x : String) (xs : List String) → Distinct xs → Distinct (include x xs)
include-Distinct x xs h = elim (Bool-cases (elem x xs)) [
  | inl e ↦ rw e h
  | inr e ↦ rw e (Distinct-append_one x xs h e)
]

elem-include :
    (x y : String) (xs : List String) → elem y (include x xs) ≡ (if x == y then true else elem y xs)
elem-include x y xs = ground (arith, elem-append y xs (x ∷ []), eq_iff x y, eq_iff y x)

pub record Memory : Type 0 where
  pub texts : Dict String
  pub sets : Dict TextSet

abbrev pub memory_store : KeyStore
memory_store = record {
  State = Memory;
  get = λ s k. Dict.get s.texts k;
  set = λ s k v. record s { texts = Dict.put s.texts k v };
  delete = λ s k. record s { texts = Dict.pop s.texts k };
  sadd = λ s k x. record s {
    sets = Dict.put s.sets k (record {
      elements = include x (members_of (Dict.get s.sets k));
      distinct = include-Distinct x _ (members_of-Distinct (Dict.get s.sets k));
    });
  };
  srem = λ s k x. record s {
    sets = Dict.put s.sets k (record {
      elements = remove_first x (members_of (Dict.get s.sets k));
      distinct = Distinct-remove_first x _ (members_of-Distinct (Dict.get s.sets k));
    });
  };
  smembers = λ s k. members_of (Dict.get s.sets k);
}

pub memory_store-IsKeyStore : IsKeyStore memory_store
memory_store-IsKeyStore = record {
  get-set = λ s k v j. get-put s.texts k j v;
  get-delete = λ s k j. get-pop s.texts k j;
  get-sadd = λ s k x j e. refl;
  get-srem = λ s k x j e. refl;
  smembers-sadd = λ s k x y.
      rw get-put (ground (arith, elem-include x y (members_of (Dict.get s.sets k)), eq_refl k));
  smembers-srem = λ s k x y. rw get-put (
      ground (
        arith,
        elem-remove_first y x (members_of (Dict.get s.sets k))
            (members_of-Distinct (Dict.get s.sets k)),
        eq_refl k,
      ));
  smembers-set = λ s k v j e. refl;
  smembers-delete = λ s k j e. refl;
  smembers-Distinct = λ s k. members_of-Distinct (Dict.get s.sets k);
}
