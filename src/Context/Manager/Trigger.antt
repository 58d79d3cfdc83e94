-- ===== src/Context/Manager/Trigger.antt =====
-- When the automatic compression runs, and what it leaves alone.
use fleet_llm_inference.Common.{
  ℕ, ◌+◌, ◌-◌, ◌≤◌, ◌<◌, String, ◌≡◌, refl, inl, inr, ◌⊎◌, false, Option, none, some, leb, ltb,
  Bool-cases, List, [], ◌∷◌, ◌++◌, arith, take, drop, take-append-drop, length, length-take, All,
  Perm,
}
use fleet_llm_inference.Common.Floats.{Floats, IsOrder}
use fleet_llm_inference.Common.Sort.{
  sorted, sorted-perm, IsSorted, sorted-IsSorted, length-sorted, IsSorted-append,
}
use fleet_llm_inference.Common.Raises.{Exception, Result, ok, raised, value_error}
use fleet_llm_inference.Context.Models.{ContextItem, Stamp, conversation}
use fleet_llm_inference.Context.Store.{ContextStore, total_tokens, list_for_workflow}
use fleet_llm_inference.Context.Compression.{CompressionResult, tokens_saved}
use fleet_llm_inference.Context.Manager.{
  Metric, context_compressions, context_tokens_saved, older, oldest, replace, count_compression,
  get_candidate_context, compress_if_over_budget,
}
use fleet_llm_inference.Context.Manager.Outcome.{material, compress_old_context-cases}

module _ {F : Type 0} (ops : Floats F) where
  -- The conversation items of a workflow.
  abbrev pub turns : ContextStore F → String → List (ContextItem F)
  turns s w = list_for_workflow s w (some conversation)

  -- `taken` are the oldest turns of a workflow over its budget: at least two, and `kept`, the
  -- `keep_recent` turns that are left, hold none that is older than a taken one.
  pub record IsTrigger (s : ContextStore F) (w : String) (threshold keep_recent : ℕ)
      (taken : List (ContextItem F)) : Type 0 where
    pub over : threshold < total_tokens s w
    pub several : 2 ≤ length taken
    pub counted : length taken + keep_recent ≡ length (turns s w)
    pub kept : List (ContextItem F)
    pub complete : Perm (taken ++ kept) (turns s w)
    pub recent : All (λ a. All (λ b. ops.less b.created_at a.created_at ≡ false) kept) taken

  oldest-IsTrigger :
      (s : ContextStore F) (w : String) (threshold keep_recent : ℕ)
      → IsOrder ops
      → threshold < total_tokens s w
      → 2 ≤ length (turns s w) - keep_recent
      → IsTrigger s w threshold keep_recent
          (oldest ops s w (some (length (turns s w) - keep_recent)) (some conversation))
  unfolding oldest list_for_workflow get_candidate_context
  oldest-IsTrigger s w threshold keep_recent o over several =
      let ts = turns s w in
      let n = length ts - keep_recent in
      let by_age = sorted (older ops) ts in
      let fits : n ≤ length by_age = omega (arith, length-sorted (older ops) ts) in
      let aged : IsSorted (older ops) by_age =
        sorted-IsSorted (older ops) (λ i. o.irrefl i.created_at)
          (λ x y z. o.trans x.created_at y.created_at z.created_at)
          (λ x y z. o.weak x.created_at y.created_at z.created_at) ts in
      record {
        over = over;
        several = omega (arith, length-take n by_age fits);
        counted = omega (arith, length-take n by_age fits);
        kept = drop n by_age;
        complete = rw (take-append-drop n by_age) (sorted-perm (older ops) ts);
        recent =
            IsSorted-append (older ops) (take n by_age) (drop n by_age)
              (rw (take-append-drop n by_age) aged);
      }

  -- What the automatic trigger makes of the result of a compression that it has done.
  abbrev pub Counts :
      CompressionResult F → Result (Option (CompressionResult F)) → List Metric → Type 0
  Counts r result metrics =
      (r.tokens_after ≤ r.tokens_before
        → (result ≡ ok (some r))
          × (metrics
              ≡ context_compressions
                ∷ context_tokens_saved (r.tokens_before - r.tokens_after)
                ∷ []))
      × (r.tokens_before < r.tokens_after
          → (result ≡ raised value_error) × (metrics ≡ context_compressions ∷ []))

  count_compression-Counts :
      (r : CompressionResult F)
      → let (result, metrics) = count_compression (ok (some r)) in Counts r result metrics
  unfolding count_compression tokens_saved
  count_compression-Counts r = elim (Bool-cases (leb r.tokens_after r.tokens_before)) [
    | inl e ↦ (λ h. rw e (refl, refl), λ h. absurd (ground arith))
    | inr e ↦ (λ h. absurd (ground arith), λ h. rw e (refl, refl))
  ]

  -- The end of a call that makes no compression.
  abbrev pub Idle :
      ContextStore F
      → (ContextStore F → ContextStore F)
      → ContextStore F
      → Result (Option (CompressionResult F))
      → List Metric
      → Type 0
  Idle s during s' result metrics =
      (metrics ≡ [])
      × (((result ≡ ok none) × (s' ≡ s))
          ⊎ ((e : Exception) × (result ≡ raised e) × (s' ≡ during s)))

  -- For ordered floats, a call of the automatic trigger either makes no compression: it changes nothing
  -- itself, counts nothing, and returns none or raises. Or it has compressed the oldest turns of a
  -- workflow over its threshold, at least two of them, has left the `keep_recent` most recent turns
  -- alone, and the store has the summary in their place. It then returns the result and counts itself
  -- and the tokens saved, where the summary is no longer than the turns; where it is longer, the counter
  -- of the saved tokens raises a ValueError, after the store was changed and the compression counted.
  pub compress_if_over_budget-IsTrigger :
      (s : ContextStore F) (during : ContextStore F → ContextStore F) (w : String)
      (summarizer : String → Result String) (threshold keep_recent : ℕ) (stamp : Stamp F)
      → IsOrder ops
      → let (s', result, metrics) =
          compress_if_over_budget ops s during w summarizer threshold keep_recent stamp in
        Idle s during s' result metrics
        ⊎ ((r : CompressionResult F) × (text : String) × IsTrigger s w threshold keep_recent
              r.original_items
            × (summarizer (material r.original_items) ≡ ok text)
            × (r.summary_item.content ≡ text)
            × (s' ≡ replace (during s) r)
            × Counts r result metrics)
  unfolding compress_if_over_budget count_compression
  compress_if_over_budget-IsTrigger s during w summarizer threshold keep_recent stamp o =
      let old_count = length (turns s w) - keep_recent in
      elim (Bool-cases (leb (total_tokens s w) threshold)) [
        | inl e ↦ rw e (inl (refl, inl (refl, refl)))
        | inr e ↦ elim (Bool-cases (ltb old_count 2)) [
          | inl f ↦ rw e (rw f (inl (refl, inl (refl, refl))))
          | inr f ↦
              elim (compress_old_context-cases ops s during w summarizer (some old_count)
                (some conversation) stamp) [
                  | inl (h, q) ↦ rw e (rw f (rw q (inl (refl, inl (refl, refl)))))
                  | inr (h, inl (x, a, q)) ↦ rw e (rw f (rw q (inl (refl, inr (x, refl, refl)))))
                  | inr (h, inr (text, r, a, q, v, k)) ↦ rw e (
                      rw f (
                        rw q (
                          inr (
                            r,
                            text,
                            rw v.original (
                                oldest-IsTrigger s w threshold keep_recent o (ground arith)
                                  (ground arith)),
                            rw v.original a,
                            k,
                            refl,
                            count_compression-Counts r,
                          ))))
                ]
        ]
      ]
