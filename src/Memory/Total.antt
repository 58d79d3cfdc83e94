-- ===== src/Memory/Total.antt =====
-- With the default weights memory/retrieval.py always returns.
use fleet_llm_inference.Common.{
  ℕ, String, ◌≡◌, refl, ◌∙◌, Bool, true, false, none, List, [], ◌∷◌, map, arith, eq_refl, is_some,
  All,
}
use fleet_llm_inference.Common.Floats.{Floats, minimum, maximum}
use fleet_llm_inference.Common.Packing.{pack}
use fleet_llm_inference.Common.Sort.{sorted}
use fleet_llm_inference.Common.Raises.{Result, ok, raised, map_raising}
use fleet_llm_inference.Dict
use fleet_llm_inference.Dict.{Dict, get-put, lookup, write}
use fleet_llm_inference.Memory.{
  MemoryItem, cost, by_key, keyed_memory, select_within_budget, retrieve_relevant_memories,
  score_memories, values_by_id, scaled, normalized, normalize, score, scores_of, or_default,
  default_weights,
}

abbrev is_ok {ℓ} : {A : Type ℓ} → Result A → Bool
is_ok (ok a) = true
is_ok (raised e) = false

ok_of {ℓ} : {A : Type ℓ} (m : Result A) → is_ok m ≡ true → (a : A) × (m ≡ ok a)
ok_of (ok a) h = (a, refl)
ok_of (raised e) h = cc

module _ {F : Type 0} where
  abbrev Has : Dict F → String → Type 0
  Has d k = is_some (Dict.get d k) ≡ true

  Has-put : (d : Dict F) (k j : String) (v : F) → Has d k → Has (Dict.put d j v) k
  Has-put d k j v h = ground (arith, get-put d j k v, h)

  Has-put_self : (d : Dict F) (k : String) (v : F) → Has (Dict.put d k v) k
  Has-put_self d k v = ground (arith, get-put d k k v, eq_refl k)

  Has-values_by_id :
      (value : MemoryItem F → F) (items : List (MemoryItem F)) (d : Dict F) (k : String)
      → Has d k
      → Has (values_by_id value items d) k
  unfolding values_by_id
  Has-values_by_id value [] d k h = h
  Has-values_by_id value (i ∷ items) d k h =
      Has-values_by_id value items _ k (Has-put d k i.id (value i) h)

  All-values_by_id :
      (value : MemoryItem F → F) (items : List (MemoryItem F)) (d : Dict F)
      → All (λ i. Has (values_by_id value items d) i.id) items
  unfolding values_by_id
  All-values_by_id value [] d = tt
  All-values_by_id value (i ∷ items) d = (
    Has-values_by_id value items _ i.id (Has-put_self d i.id (value i)),
    All-values_by_id value items (Dict.put d i.id (value i)),
  )

  lookup-map :
      (k : String) (f : F → F) (l : List (String × F))
      → is_some (lookup k (map (λ (e : String × F). (e.0, f e.1)) l)) ≡ is_some (lookup k l)
  unfolding lookup
  lookup-map k f [] = refl
  lookup-map k f ((j, v) ∷ l) = ground (arith, lookup-map k f l)

module _ {F : Type 0} (ops : Floats F) where
  has_normalized :
      (k : String) (l : List (String × F))
      → is_some (lookup k (normalized ops l)) ≡ is_some (lookup k l)
  unfolding normalized
  has_normalized k [] = refl
  has_normalized k ((j, v) ∷ l) =
      let values = map (λ (e : String × F). e.1) l in
      lookup-map k (scaled ops (minimum ops.less v values) (maximum ops.less v values)) ((j, v) ∷ l)

  Has-normalize : (d : Dict F) (k : String) → Has d k → Has (normalize ops d) k
  unfolding normalize Dict.get
  Has-normalize d k h = has_normalized k d.entries ∙ h

  abbrev Scored : (MemoryItem F → Result F) → MemoryItem F → Type 0
  Scored f i = is_ok (f i) ≡ true

  score-Scored :
      (words : String → List String) (query : String) (recency access : Dict F) (i : MemoryItem F)
      → Has recency i.id
      → Has access i.id
      → Scored (score ops words query (or_default ops none) recency access) i
  unfolding score or_default default_weights Dict.get Dict.put Dict.empty lookup write
  score-Scored words query recency access i h k = ground (arith, h, k)

  all_Scored :
      (words : String → List String) (query : String) (recency access : Dict F)
      (items : List (MemoryItem F))
      → All (λ i. Has recency i.id) items
      → All (λ i. Has access i.id) items
      → All
          (Scored (
            score ops words query
              (or_default ops none)
              (normalize ops recency)
              (normalize ops access)))
          items
  all_Scored words query recency access [] h k = tt
  all_Scored words query recency access (i ∷ items) h k = (
    score-Scored words query _ _ i (Has-normalize recency i.id h.0) (Has-normalize access i.id k.0),
    all_Scored words query recency access items h.1 k.1,
  )

  scores_of_total :
      (f : MemoryItem F → Result F) (items : List (MemoryItem F)) (d : Dict F)
      → All (Scored f) items
      → (r : Dict F) × (scores_of ops f items d ≡ ok r)
        × ((k : String) → Has d k → Has r k)
        × All (λ i. Has r i.id) items
  unfolding scores_of
  scores_of_total f [] d h = (d, refl, λ k p. p, tt)
  scores_of_total f (i ∷ items) d h =
      let (x, e) = ok_of (f i) h.0 in
      let (r, p, q, a) = scores_of_total f items (Dict.put d i.id x) h.1 in
      (
        r,
        ground (arith, e, p),
        λ k t. q k (Has-put d k i.id x t),
        (q i.id (Has-put_self d i.id x), a),
      )

  keyed_total :
      (scores : Dict F) (items : List (MemoryItem F))
      → All (λ i. Has scores i.id) items
      → is_ok (map_raising (keyed_memory ops scores) items) ≡ true
  unfolding map_raising keyed_memory
  keyed_total scores [] h = refl
  keyed_total scores (i ∷ items) h = ground (arith, h.0, keyed_total scores items h.1)

  -- With the default weights, memories are retrieved whatever the candidates and the query are.
  pub retrieve_relevant_memories_total :
      (words : String → List String) (items : List (MemoryItem F)) (budget : ℕ) (query : String)
      → (r : List (MemoryItem F)) × (retrieve_relevant_memories ops words items budget query none
          ≡ ok r)
  unfolding retrieve_relevant_memories select_within_budget score_memories
  retrieve_relevant_memories_total words [] budget query = ([], refl)
  retrieve_relevant_memories_total words (i ∷ items) budget query =
      let recency = values_by_id (λ (j : MemoryItem F). j.last_used_at) (i ∷ items) Dict.empty in
      let access =
        values_by_id (λ (j : MemoryItem F). ops.of_int j.access_count) (i ∷ items) Dict.empty in
      let scored =
        all_Scored words query recency access (i ∷ items)
          (All-values_by_id _ (i ∷ items) Dict.empty) (All-values_by_id _ (i ∷ items) Dict.empty) in
      let (scores, p, _, a) = scores_of_total _ (i ∷ items) Dict.empty scored in
      let (pairs, q) =
        ok_of (map_raising (keyed_memory ops scores) (i ∷ items))
          (keyed_total scores (i ∷ items) a) in
      (
        (pack cost (map (λ (p : F × MemoryItem F). p.1) (sorted (by_key ops) pairs))
            budget).selected,
        ground (arith, p, q),
      )
