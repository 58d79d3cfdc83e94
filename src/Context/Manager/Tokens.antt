-- ===== src/Context/Manager/Tokens.antt =====
-- The tokens that a compression reports as saved are those that its workflow loses.
use fleet_llm_inference.Common.{
  ℕ, ◌+◌, String, ◌≡◌, ◌≢◌, refl, ap, inl, inr, subst, true, false, not, Option, none, some, List,
  [], ◌∷◌, ◌++◌, map, arith, ◌==◌, eq_iff, join, elem, Distinct, truthy, keep, sum_by,
  sum_by-append, All, All-map, List-cases,
}
use fleet_llm_inference.Dict
use fleet_llm_inference.Common.Floats.{Floats}
use fleet_llm_inference.Common.Raises.{Result, ok, raised, bind_ok, ok-injective}
use fleet_llm_inference.Context.Models.{ContextType, ContextItem, Stamp}
use fleet_llm_inference.Context.Store.{ContextStore, total_tokens}
use fleet_llm_inference.Context.Store.Index.{names}
use fleet_llm_inference.Context.Store.Invariant.{IsConsistent}
use fleet_llm_inference.Context.Store.View.{view, total_tokens_lem}
use fleet_llm_inference.Context.Store.Log.{find, find-keep, Distinct-keep}
use fleet_llm_inference.Context.Compression.{
  CompressionResult, compress_items, summary_of, compression_result,
}
use fleet_llm_inference.Context.Manager.{replace, finish, oldest, compress_old_context}
use fleet_llm_inference.Context.Manager.Replace.{ids, others, others-cons, others-nil, view-replace}
use fleet_llm_inference.Context.Manager.Oldest.{Distinct-view, Distinct-oldest, All-oldest}

names_self : (w : String) → w ≢ "" → names (truthy (some w)) w ≡ true
names_self w h = ground (arith, eq_iff w "", eq_iff w w)

module _ {F : Type 0} where
  abbrev pub tokens : List (ContextItem F) → ℕ
  tokens = sum_by (λ i. i.token_count)

  without_absent :
      (k : String) (xs : List (ContextItem F))
      → elem k (ids xs) ≡ false
      → tokens (keep (λ i. not (i.id == k)) xs) ≡ tokens xs
  without_absent k [] h = refl
  without_absent k (x ∷ xs) h = ground (arith, without_absent k xs, eq_iff x.id k, eq_iff k x.id)

  tokens-without :
      (g : ContextItem F) (xs : List (ContextItem F))
      → Distinct (ids xs)
      → find g.id xs ≡ some g
      → tokens (keep (λ i. not (i.id == g.id)) xs) + g.token_count ≡ tokens xs
  tokens-without g [] d h = cc
  tokens-without g (x ∷ xs) d h = ground (
    arith,
    tokens-without g xs d.1,
    without_absent x.id xs d.0,
    without_absent g.id xs,
    eq_iff x.id g.id,
  )

  find-without :
      (g : ContextItem F) (gone xs : List (ContextItem F))
      → Distinct (ids xs)
      → elem g.id (ids gone) ≡ false
      → All (λ i. find i.id xs ≡ some i) gone
      → All (λ i. find i.id (keep (λ j. not (j.id == g.id)) xs) ≡ some i) gone
  find-without g [] xs d e h = tt
  find-without g (i ∷ gone) xs d e h = (
    ground (
      arith,
      find-keep i.id (λ j. not (j.id == g.id)) xs d,
      h.0,
      eq_iff i.id g.id,
      eq_iff g.id i.id,
    ),
    find-without g gone xs d (ground arith) h.1,
  )

  -- Distinct items of a list take exactly their tokens with them.
  tokens-others :
      (gone xs : List (ContextItem F))
      → Distinct (ids xs)
      → Distinct (ids gone)
      → All (λ i. find i.id xs ≡ some i) gone
      → tokens (others gone xs) + tokens gone ≡ tokens xs
  tokens-others [] xs d e h = rw others-nil (omega arith)
  tokens-others (g ∷ gone) xs d e h = rw (← others-cons g gone xs) (
      omega (
        arith,
        tokens-others gone (keep (λ i. not (i.id == g.id)) xs) (Distinct-keep _ xs d) e.1
            (find-without g gone xs d e.0 h.1),
        tokens-without g xs d h.0,
      ))

  find-extend :
      (xs extra : List (ContextItem F)) (i : ContextItem F)
      → find i.id xs ≡ some i
      → find i.id (xs ++ extra) ≡ some i
  find-extend [] extra i h = cc
  find-extend (x ∷ xs) extra i h = ground (arith, find-extend xs extra i)

  listed :
      (s : ContextStore F) (r : CompressionResult F) (w : String)
      → IsConsistent s
      → Dict.get s.items r.summary_item.id ≡ none
      → names (truthy r.summary_item.workflow_id) w ≡ true
      → view (replace s r) w ≡ others r.original_items (view s w) ++ r.summary_item ∷ []
  listed s r w c fresh named = rw (view-replace s r w c fresh, named) refl

  replace-tokens :
      (s : ContextStore F) (r : CompressionResult F) (w : String)
      → IsConsistent s
      → Dict.get s.items r.summary_item.id ≡ none
      → names (truthy r.summary_item.workflow_id) w ≡ true
      → Distinct (ids r.original_items)
      → All (λ i. find i.id (view s w) ≡ some i) r.original_items
      → total_tokens (replace s r) w + tokens r.original_items
        ≡ total_tokens s w + r.summary_item.token_count
  replace-tokens s r w c fresh named d found = omega (
    arith,
    total_tokens_lem s w,
    total_tokens_lem (replace s r) w,
    ap tokens (listed s r w c fresh named),
    sum_by-append (λ i. i.token_count) (others r.original_items (view s w)) (r.summary_item ∷ []),
    tokens-others r.original_items (view s w) (Distinct-view s w c) d found,
  )

  -- What `compress_items` says of its result.
  pub record IsCompression (items : List (ContextItem F)) (w id : String) (r : CompressionResult F)
      : Type 0 where
    pub original : r.original_items ≡ items
    pub identified : r.summary_item.id ≡ id
    pub placed : r.summary_item.workflow_id ≡ some w
    pub before : r.tokens_before ≡ tokens items
    pub after : r.tokens_after ≡ r.summary_item.token_count

  finish_inv :
      (s s' : ContextStore F) (c : Result (CompressionResult F)) (r : CompressionResult F)
      → finish s c ≡ (s', ok (some r))
      → (c ≡ ok r) × (replace s r ≡ s')
  unfolding finish
  finish_inv s s' (ok x) r h = ground arith
  finish_inv s s' (raised e) r h = ground arith

module _ {F : Type 0} (ops : Floats F) where
  compress_items-IsCompression :
      (i : ContextItem F) (items : List (ContextItem F)) (summarizer : String → Result String)
      (w : String) (stamp : Stamp F) (r : CompressionResult F)
      → compress_items ops (i ∷ items) summarizer (some w) none stamp ≡ ok r
      → IsCompression (i ∷ items) w stamp.id r
  unfolding compress_items
  compress_items-IsCompression i items summarizer w stamp r h =
      let (text, _, e) =
        bind_ok (summarizer (join "\n\n" (map (λ (j : ContextItem F). j.content) (i ∷ items)))) _
          h in
      subst (IsCompression (i ∷ items) w stamp.id)
        {x = compression_result (i ∷ items) (summary_of ops i items text (some w) none stamp)}
        (ok-injective e)
        (record { original = refl; identified = refl; placed = refl; before = refl; after = refl })

  pub compress_old_context_inv :
      (s s' : ContextStore F) (during : ContextStore F → ContextStore F) (w : String)
      (summarizer : String → Result String) (n : Option ℕ) (t : Option ContextType)
      (stamp : Stamp F) (r : CompressionResult F)
      → compress_old_context ops s during w summarizer n t stamp ≡ (s', ok (some r))
      → (replace (during s) r ≡ s') × IsCompression (oldest ops s w n t) w stamp.id r
  unfolding compress_old_context
  compress_old_context_inv s s' during w summarizer n t stamp r h =
      elim (List-cases (oldest ops s w n t)) [
        | inl e ↦ absurd (nothing (rw (e, compress_old_context) at h))
        | inr (i, items, e) ↦
            let (c, q) = finish_inv (during s) s' _ r (rw (e, compress_old_context) at h) in
            (q, rw e (compress_items-IsCompression i items summarizer w stamp r c))
      ]
    where
      nothing :
          ◌≡◌ {A = ContextStore F × Result (Option (CompressionResult F))}
            (s, ok none)
            (s', ok (some r))
          → ⊥
      nothing q = ground arith

  -- For consistent stores, a workflow with a name that is not empty, and a fresh id of the summary:
  -- if other tasks have only added items to the workflow meanwhile, a compression that returns a
  -- result changes the workflow's token total by exactly what it reports: before it counts
  -- `tokens_before`, after it `tokens_after` in their place.
  pub compress_old_context-total_tokens :
      (s s' : ContextStore F) (during : ContextStore F → ContextStore F) (w : String)
      (summarizer : String → Result String) (n : Option ℕ) (t : Option ContextType)
      (stamp : Stamp F) (extra : List (ContextItem F)) (r : CompressionResult F)
      → IsConsistent s
      → IsConsistent (during s)
      → view (during s) w ≡ view s w ++ extra
      → Dict.get (during s).items stamp.id ≡ none
      → w ≢ ""
      → compress_old_context ops s during w summarizer n t stamp ≡ (s', ok (some r))
      → total_tokens s' w + r.tokens_before ≡ total_tokens (during s) w + r.tokens_after
  compress_old_context-total_tokens s s' during w summarizer n t stamp extra r c c' grown fresh
        named h =
      let (q, v) = compress_old_context_inv s s' during w summarizer n t stamp r h in
      let total =
        replace-tokens (during s) r w c' (rw v.identified fresh) (rw v.placed (names_self w named))
          (rw v.original (Distinct-oldest ops s w n t c))
          (rw (v.original, grown)
            (All-map _ _ _ (find-extend (view s w) extra) (All-oldest ops s w n t c))) in
      omega (arith, total, ap (λ x. total_tokens x w) q, v.before, v.after, ap tokens v.original)

  -- For a consistent store, a workflow with a name that is not empty, and a fresh id of the summary,
  -- a compression that returns a result, whatever others did to the store meanwhile: the items that
  -- it has summarized, the oldest ones at its start, are gone from the workflow's list as it stands
  -- now, every other item keeps its place, and the summary is the last item.
  pub compress_old_context-view :
      (s s' : ContextStore F) (during : ContextStore F → ContextStore F) (w : String)
      (summarizer : String → Result String) (n : Option ℕ) (t : Option ContextType)
      (stamp : Stamp F) (r : CompressionResult F)
      → IsConsistent (during s)
      → Dict.get (during s).items stamp.id ≡ none
      → w ≢ ""
      → compress_old_context ops s during w summarizer n t stamp ≡ (s', ok (some r))
      → view s' w ≡ others (oldest ops s w n t) (view (during s) w) ++ r.summary_item ∷ []
  compress_old_context-view s s' during w summarizer n t stamp r c' fresh named h =
      let (q, v) = compress_old_context_inv s s' during w summarizer n t stamp r h in
      subst (λ x. view x w ≡ others (oldest ops s w n t) (view (during s) w) ++ r.summary_item ∷ [])
        q
        (subst
          (λ l. view (replace (during s) r) w ≡ others l (view (during s) w) ++ r.summary_item ∷ [])
          v.original
          (listed (during s) r w c' (rw v.identified fresh) (rw v.placed (names_self w named))))
