-- ===== src/Context/Manager/Outcome.antt =====
-- How a compression of context/manager.py ends.
use fleet_llm_inference.Common.{
  ℕ, zero, suc, ◌≤◌, String, ◌≡◌, ◌≢◌, refl, inl, inr, ◌⊎◌, false, Option, none, some, List, [],
  ◌∷◌, ◌++◌, map, arith, join, List-cases, Perm, All, length, take, drop, take-append-drop,
}
use mathlib.Core.List.{append-nil}
use fleet_llm_inference.Dict
use fleet_llm_inference.Common.Floats.{Floats, IsOrder}
use fleet_llm_inference.Common.Sort.{
  sorted, sorted-perm, IsSorted, sorted-IsSorted, IsSorted-append,
}
use fleet_llm_inference.Common.Raises.{Exception, Result, ok, raised, Result-cases}
use fleet_llm_inference.Context.Models.{ContextType, ContextItem, Stamp}
use fleet_llm_inference.Context.Store.{ContextStore, of_type}
use fleet_llm_inference.Context.Store.Invariant.{IsConsistent}
use fleet_llm_inference.Context.Store.View.{view}
use fleet_llm_inference.Context.Compression.{
  CompressionResult, compression_result, summary_of, compress_items,
}
use fleet_llm_inference.Context.Manager.{
  first_of_all, older, oldest, replace, finish, get_candidate_context, compress_old_context,
}
use fleet_llm_inference.Context.Manager.Replace.{others}
use fleet_llm_inference.Context.Manager.Tokens.{IsCompression, compress_old_context-view}

module _ {F : Type 0} where
  -- The text that the summarizer is given.
  abbrev pub material : List (ContextItem F) → String
  material items = join "\n\n" (map (λ (i : ContextItem F). i.content) items)

  -- Of so many items at most, `taken` are all, or that many.
  abbrev pub Limited : Option ℕ → List (ContextItem F) → List (ContextItem F) → Type 0
  Limited none taken kept = kept ≡ []
  Limited (some n) taken kept = (length taken ≤ n) × ((kept ≡ []) ⊎ (length taken ≡ n))

  take-Limited : (n : ℕ) (xs : List (ContextItem F)) → Limited (some n) (take n xs) (drop n xs)
  take-Limited zero xs = (omega arith, inr refl)
  take-Limited (suc n) [] = (omega arith, inl refl)
  take-Limited (suc n) (x ∷ xs) =
      let (a, b) = take-Limited n xs in
      (ground (arith, a), elim b [ inl e ↦ inl e | inr e ↦ inr (ground (arith, e)) ])

module _ {F : Type 0} (ops : Floats F) where
  -- `taken` are the oldest ones of some candidates, as many as a limit allows.
  pub record IsOldest (candidates : List (ContextItem F)) (limit : Option ℕ)
      (taken : List (ContextItem F)) : Type 0 where
    pub kept : List (ContextItem F)
    pub complete : Perm (taken ++ kept) candidates
    pub recent : All (λ a. All (λ b. ops.less b.created_at a.created_at ≡ false) kept) taken
    pub limited : Limited limit taken kept

  first_of_all-IsOldest :
      (candidates by_age : List (ContextItem F))
      → Perm by_age candidates
      → IsSorted (older ops) by_age
      → (n : Option ℕ) → IsOldest candidates n (first_of_all n by_age)
  first_of_all-IsOldest candidates by_age p aged none = record {
    kept = [];
    complete = rw (append-nil by_age) p;
    recent = IsSorted-append (older ops) by_age [] (rw (append-nil by_age) aged);
    limited = refl;
  }
  first_of_all-IsOldest candidates by_age p aged (some n) = record {
    kept = drop n by_age;
    complete = rw (take-append-drop n by_age) p;
    recent =
        IsSorted-append (older ops) (take n by_age) (drop n by_age)
          (rw (take-append-drop n by_age) aged);
    limited = take-Limited n by_age;
  }

  oldest-IsOldest :
      (s : ContextStore F) (w : String) (n : Option ℕ) (t : Option ContextType)
      → IsOrder ops
      → IsOldest (of_type t (view s w)) n (oldest ops s w n t)
  unfolding oldest view get_candidate_context
  oldest-IsOldest s w n t o =
      let candidates = of_type t (view s w) in
      let aged : IsSorted (older ops) (sorted (older ops) candidates) =
        sorted-IsSorted (older ops) (λ i. o.irrefl i.created_at)
          (λ x y z. o.trans x.created_at y.created_at z.created_at)
          (λ x y z. o.weak x.created_at y.created_at z.created_at) candidates in
      first_of_all-IsOldest candidates (sorted (older ops) candidates)
        (sorted-perm (older ops) candidates) aged n

  -- The three ends of a compression.
  pub compress_old_context-cases :
      (s : ContextStore F) (during : ContextStore F → ContextStore F) (w : String)
      (summarizer : String → Result String) (n : Option ℕ) (t : Option ContextType)
      (stamp : Stamp F)
      → let items = oldest ops s w n t in
        let result = compress_old_context ops s during w summarizer n t stamp in
        ((items ≡ []) × (result ≡ (s, ok none)))
        ⊎ ((items ≢ [])
            × (((e : Exception) × (summarizer (material items) ≡ raised e)
                  × (result ≡ (during s, raised e)))
                ⊎ ((text : String) × (r : CompressionResult F) × (summarizer (material items)
                      ≡ ok text)
                    × (result ≡ (replace (during s) r, ok (some r)))
                    × IsCompression items w stamp.id r
                    × (r.summary_item.content ≡ text))))
  unfolding compress_old_context compress_items finish
  compress_old_context-cases s during w summarizer n t stamp =
      elim (List-cases (oldest ops s w n t)) [
        | inl h ↦ inl (h, rw (h, compress_old_context) refl)
        | inr (i, items, h) ↦ inr (
          λ nothing. absurd (ground (arith, h, nothing)),
          elim (Result-cases (summarizer (material (i ∷ items)))) [
            | inr (e, q) ↦ inl (e, ground (arith, h, q), ground (arith, h, q))
            | inl (text, q) ↦ inr (
              text,
              compression_result (i ∷ items) (summary_of ops i items text (some w) none stamp),
              ground (arith, h, q),
              ground (arith, h, q),
              rw h (record {
                original = refl;
                identified = refl;
                placed = refl;
                before = refl;
                after = refl;
              }),
              refl,
            )
          ],
        )
      ]

  -- For ordered floats, a workflow with a name that is not empty and a fresh id of the summary,
  -- where other tasks leave the store consistent, a compression asks for the oldest items of the
  -- type it is given, as many as its limit allows, and ends in one of three ways. With no such
  -- item, the store is left alone. Where the summarizer raises on their joined contents, so does
  -- the compression, and the store is as others have left it. Else the summarizer's text is the
  -- content of a summary, the items are gone from the workflow's list as it stands now, every other
  -- item keeps its place, and the summary is the last one.
  pub compress_old_context_total :
      (s : ContextStore F) (during : ContextStore F → ContextStore F) (w : String)
      (summarizer : String → Result String) (n : Option ℕ) (t : Option ContextType)
      (stamp : Stamp F)
      → IsOrder ops
      → IsConsistent (during s)
      → Dict.get (during s).items stamp.id ≡ none
      → w ≢ ""
      → let result = compress_old_context ops s during w summarizer n t stamp in
        (taken : List (ContextItem F)) × IsOldest (of_type t (view s w)) n taken
        × (((taken ≡ []) × (result ≡ (s, ok none)))
            ⊎ ((e : Exception) × (taken ≢ [])
                × (summarizer (material taken) ≡ raised e)
                × (result ≡ (during s, raised e)))
            ⊎ ((text : String) × (r : CompressionResult F) × (s' : ContextStore F) × (taken ≢ [])
                × (summarizer (material taken) ≡ ok text)
                × (result ≡ (s', ok (some r)))
                × IsCompression taken w stamp.id r
                × (r.summary_item.content ≡ text)
                × (view s' w ≡ others taken (view (during s) w) ++ r.summary_item ∷ [])))
  compress_old_context_total s during w summarizer n t stamp o c fresh named = (
    oldest ops s w n t,
    oldest-IsOldest s w n t o,
    elim (compress_old_context-cases s during w summarizer n t stamp) [
      | inl (h, q) ↦ inl (h, q)
      | inr (h, inl (e, a, q)) ↦ inr (inl (e, h, a, q))
      | inr (h, inr (text, r, a, q, v, k)) ↦ inr (
          inr (
            text,
            r,
            replace (during s) r,
            h,
            a,
            q,
            v,
            k,
            compress_old_context-view ops s (replace (during s) r) during w summarizer n t stamp r c
                fresh named q,
          ))
    ],
  )
