-- ===== src/Context/Store/Index.antt =====
-- What the helpers of context/store.py do to one entry of a dictionary.
use fleet_llm_inference.Common.{
  String, ◌≡◌, refl, ◌↔◌, Bool, true, false, Option, none, some, List, [], ◌∷◌, ◌++◌, arith, ◌==◌,
  eq_iff, if◌then◌else◌, elem, remove_first,
}
use fleet_llm_inference.Dict
use fleet_llm_inference.Dict.{Dict, get-put, get-pop}
use fleet_llm_inference.Context.Models.{ContextItem}
use fleet_llm_inference.Context.Store.{or_empty, index, unindex, pop_all}

-- Whether an item with the (truthy) workflow `o` belongs to the workflow `w`.
abbrev pub names : Option String → String → Bool
names none w = false
names (some v) w = v == w

pub names_iff : (o : Option String) (w : String) → (names o w ≡ true) ↔ (o ≡ some w)
names_iff none w = ground arith
names_iff (some v) w = ground (arith, eq_iff v w)

pub names_unique : (o : Option String) (v w : String) → names o v ≡ true → names o w ≡ true → v ≡ w
names_unique none v w h k = cc
names_unique (some u) v w h k = ground (arith, eq_iff u v, eq_iff u w)

pub index_lem :
    (o : Option String) (v id : String) (d : Dict (List String))
    → or_empty (Dict.get (index o id d) v)
      ≡ (if names o v then or_empty (Dict.get d v) ++ id ∷ [] else or_empty (Dict.get d v))
unfolding index
index_lem none v id d = refl
index_lem (some w) v id d =
    ground (arith, get-put d w v (or_empty (Dict.get d w) ++ id ∷ []), eq_iff w v)

pub unindex_lem :
    (o : Option String) (v id : String) (d : Dict (List String))
    → or_empty (Dict.get (unindex o id d) v)
      ≡ (if names o v then remove_first id (or_empty (Dict.get d v)) else or_empty (Dict.get d v))
unfolding unindex
unindex_lem none v id d = refl
unindex_lem (some w) v id d =
    ground (arith, get-put d w v (remove_first id (or_empty (Dict.get d w))), eq_iff w v)

pub get-pop_all :
    {F : Type 0} (ids : List String) (k : String) (d : Dict (ContextItem F))
    → Dict.get (pop_all ids d) k ≡ (if elem k ids then none else Dict.get d k)
unfolding pop_all
get-pop_all [] k d = refl
get-pop_all (i ∷ ids) k d =
    ground (arith, get-pop_all ids k (Dict.pop d i), get-pop d i k, eq_iff i k, eq_iff k i)
