-- ===== src/Context/Selection/Total.antt =====
-- When context/selection.py raises.
use fleet_llm_inference.Common.{
  ℕ, ◌≤◌, String, ◌≡◌, refl, sym, subst, inl, inr, Bool, true, false, none, some, List, [], ◌∷◌,
  map, arith, ◌==◌, eq_iff, elem, All, All-map, Bool-cases,
}
use fleet_llm_inference.Common.Floats.{Floats, minimum, maximum}
use fleet_llm_inference.Common.Sort.{sorted}
use fleet_llm_inference.Common.Packing.{pack}
use fleet_llm_inference.Common.Raises.{Result, ok, raised, value_error, map_raising}
use fleet_llm_inference.Dict
use fleet_llm_inference.Dict.{Dict, get-put, get-empty}
use fleet_llm_inference.Context.Models.{ContextItem}
use fleet_llm_inference.Context.Selection.{
  SelectionResult, comes_before, keyed, sort_items, greedy_pack, key_of, hybrid_key, or_default,
  default_weights, density, hybrid_score, select_context, policies, recency_scores, by_id,
  selection_result, tokens_of,
}

module _ {F : Type 0} (ops : Floats F) where
  abbrev Returns : {A : Type 0} → Result A → Type 0
  Returns {A} r = (a : A) × (r ≡ ok a)

  map_raising_total :
      (key : ContextItem F → Result F) (items : List (ContextItem F))
      → All (λ i. Returns (key i)) items
      → Returns (map_raising (keyed ops key) items)
  unfolding map_raising keyed
  map_raising_total key [] h = ([], refl)
  map_raising_total key (i ∷ items) h =
      let (ps, e) = map_raising_total key items h.1 in ((h.0.0, i) ∷ ps, rw (h.0.1, e) refl)

  -- Every id of the items has an entry.
  get-by_id :
      (f : ContextItem F → F) (items : List (ContextItem F)) (d : Dict F) (k : String)
      → (x : F) × (Dict.get d k ≡ some x)
      → (x : F) × (Dict.get (by_id ops f items d) k ≡ some x)
  unfolding by_id
  get-by_id f [] d k h = h
  get-by_id f (i ∷ items) d k h =
      get-by_id f items (Dict.put d i.id (f i)) k (elim (Bool-cases (i.id == k)) [
        | inl e ↦ (f i, rw (get-put, e) refl)
        | inr e ↦ (h.0, rw (get-put, e) h.1)
      ])

  All-by_id :
      (f : ContextItem F → F) (items : List (ContextItem F)) (d : Dict F)
      → All (λ i. (x : F) × (Dict.get (by_id ops f items d) i.id ≡ some x)) items
  unfolding by_id
  All-by_id f [] d = tt
  All-by_id f (i ∷ items) d = (
    get-by_id f items (Dict.put d i.id (f i)) i.id
        (f i, rw (get-put, (eq_iff i.id i.id).1 refl) refl),
    All-by_id f items (Dict.put d i.id (f i)),
  )

  recency_shape :
      (i : ContextItem F) (items : List (ContextItem F))
      → (f : ContextItem F → F) × (recency_scores ops (i ∷ items)
          ≡ by_id ops f (i ∷ items) Dict.empty)
  unfolding recency_scores
  recency_shape i items = elim (Bool-cases (ops.same hi lo)) [
    | inl e ↦ (λ j. ops.literal 1 1, rw e refl)
    | inr e ↦ (λ j. ops.div (ops.sub j.created_at lo) (ops.sub hi lo), rw e refl)
  ]
    where
      times : List F
      times = map (λ (j : ContextItem F). j.created_at) items

      lo : F
      lo = minimum ops.less i.created_at times

      hi : F
      hi = maximum ops.less i.created_at times

  All-recency :
      (items : List (ContextItem F))
      → All (λ i. (x : F) × (Dict.get (recency_scores ops items) i.id ≡ some x)) items
  All-recency [] = tt
  All-recency (i ∷ items) =
      let (f, e) = recency_shape i items in
      subst (λ d. All (λ j. (x : F) × (Dict.get d j.id ≡ some x)) (i ∷ items)) (sym e)
        (All-by_id f (i ∷ items) Dict.empty)

  Returns-density : (x : F) (i : ContextItem F) → 1 ≤ i.token_count → Returns (density ops x i)
  unfolding density
  Returns-density x i h = (ops.div x (ops.of_int i.token_count), ground arith)

  Returns-hybrid_score :
      (i : ContextItem F) (x : F) → Returns (hybrid_score ops i x (default_weights ops))
  unfolding hybrid_score default_weights Dict.put Dict.get Dict.empty
  Returns-hybrid_score i x = (_, refl)

  Returns-hybrid_key :
      (d : Dict F) (i : ContextItem F) (x : F)
      → Dict.get d i.id ≡ some x
      → 1 ≤ i.token_count
      → Returns (hybrid_key ops d (default_weights ops) i)
  unfolding hybrid_key
  Returns-hybrid_key d i x e h =
      let (score, s) = Returns-hybrid_score i x in
      let (v, q) = Returns-density score i h in (v, rw (e, s) q)

  All-hybrid :
      (d : Dict F) (items : List (ContextItem F))
      → All (λ i. (x : F) × (Dict.get d i.id ≡ some x)) items
      → All (λ i. 1 ≤ i.token_count) items
      → All (λ i. Returns (hybrid_key ops d (default_weights ops) i)) items
  All-hybrid d [] r h = tt
  All-hybrid d (i ∷ items) r h =
      (Returns-hybrid_key d i r.0.0 r.0.1 h.0, All-hybrid d items r.1 h.1)

  All-density :
      (value : ContextItem F → F) (items : List (ContextItem F))
      → All (λ i. 1 ≤ i.token_count) items
      → All (λ i. Returns (density ops (value i) i)) items
  All-density value items h =
      All-map (λ i. 1 ≤ i.token_count) _ items (λ i. Returns-density (value i) i) h

  All-ok :
      (value : ContextItem F → F) (items : List (ContextItem F))
      → All (λ i. Returns (ok (value i))) items
  All-ok value [] = tt
  All-ok value (i ∷ items) = ((value i, refl), All-ok value items)

  -- The keys of every policy can be computed.
  Returns-key_of :
      (policy : String) (items : List (ContextItem F))
      → All (λ i. 1 ≤ i.token_count) items
      → All (λ i. Returns ((key_of ops policy none items).0 i)) items
  unfolding key_of or_default
  Returns-key_of policy items h = elim (Bool-cases (policy == "full")) [
    | inl e ↦ rw e (All-ok (λ i. i.created_at) items)
    | inr e ↦ rw e (elim (Bool-cases (policy == "recent")) [
      | inl e ↦ rw e (All-ok (λ i. i.created_at) items)
      | inr e ↦ rw e (elim (Bool-cases (policy == "relevance")) [
        | inl e ↦ rw e (All-ok (λ i. i.relevance) items)
        | inr e ↦ rw e (elim (Bool-cases (policy == "budget_aware")) [
          | inl e ↦ rw e (All-density (λ i. i.importance) items h)
          | inr e ↦ rw e (All-hybrid (recency_scores ops items) items (All-recency items) h)
        ])
      ])
    ])
  ]

  Returns-greedy_pack :
      (items : List (ContextItem F)) (budget : ℕ) (key : ContextItem F → Result F) (reversed : Bool)
      → All (λ i. Returns (key i)) items
      → Returns (greedy_pack ops items budget key reversed)
  unfolding greedy_pack sort_items
  Returns-greedy_pack items budget key reversed h =
      let (pairs, e) = map_raising_total key items h in
      (pack tokens_of (map (λ p. p.1) (sorted (comes_before ops reversed) pairs)) budget, rw e refl)

  -- With the default weights a known policy makes a selection of any items that cost at least one
  -- token each, and any other policy raises ValueError.
  pub select_context_total :
      (items : List (ContextItem F)) (budget : ℕ) (policy : String)
      → All (λ i. 1 ≤ i.token_count) items
      → (elem policy policies ≡ true
          → (r : SelectionResult F) × (select_context ops items budget policy none ≡ ok r))
        × (elem policy policies ≡ false
            → select_context ops items budget policy none ≡ raised value_error)
  unfolding select_context
  select_context_total items budget policy h =
      let key = key_of ops policy none items in
      let (p, e) = Returns-greedy_pack items budget key.0 key.1 (Returns-key_of policy items h) in
      (
        λ known. (selection_result p.selected p.discarded policy budget, rw (known, e) refl),
        λ unknown. rw unknown refl,
      )
