-- ===== src/Memory/Budget.antt =====
-- What memory/retrieval.py retrieves under a budget.
use mathlib.Core.List.Perm
use mathlib.Core.List.{Perm}
use fleet_llm_inference.Common.{
  ℕ, ◌+◌, ◌≤◌, ◌<◌, String, ◌≡◌, refl, subst, Option, List, [], ◌∷◌, ◌++◌, map, arith, sum_by, All,
  All-map,
}
use fleet_llm_inference.Common.Floats.{Floats}
use fleet_llm_inference.Common.Sort.{sorted, sorted-perm}
use fleet_llm_inference.Common.Packing.{pack, pack-IsPacked}
use fleet_llm_inference.Common.Raises.{ok, or_key_error, map_raising, bind_ok, ok-injective}
use fleet_llm_inference.Dict
use fleet_llm_inference.Dict.{Dict}
use fleet_llm_inference.Context.Models.{ContextItem, Stamp, post_init}
use fleet_llm_inference.Memory.{
  MemoryItem, cost, by_key, keyed_memory, select_within_budget, retrieve_relevant_memories,
  score_memories, to_context_item, to_context_items,
}

module _ {F : Type 0} (ops : Floats F) where
  keyed_memory-map :
      (scores : Dict F) (items : List (MemoryItem F)) {pairs : List (F × MemoryItem F)}
      → map_raising (keyed_memory ops scores) items ≡ ok pairs
      → map (λ p. p.1) pairs ≡ items
  unfolding map_raising keyed_memory
  keyed_memory-map scores [] h = cc
  keyed_memory-map scores (i ∷ items) h =
      let (p, hp, rest) = bind_ok (keyed_memory ops scores i) _ h in
      let (k, hk, hi) = bind_ok (or_key_error (Dict.get scores i.id)) _ hp in
      let (ps, hps, last) = bind_ok (map_raising (keyed_memory ops scores) items) _ rest in
      ground (arith, keyed_memory-map scores items hps)

  -- `r` are some of the items, within the budget, and none of the others would still fit.
  pub record IsRetrieval (items : List (MemoryItem F)) (budget : ℕ) (r : List (MemoryItem F))
      : Type 0 where
    pub within : sum_by cost r ≤ budget
    pub dropped : List (MemoryItem F)
    pub complete : Perm (r ++ dropped) items
    pub maximal : All (λ i. budget < sum_by cost r + cost i) dropped

  select_within_budget-IsRetrieval :
      (items : List (MemoryItem F)) (scores : Dict F) (budget : ℕ) (r : List (MemoryItem F))
      → select_within_budget ops items scores budget ≡ ok r
      → IsRetrieval items budget r
  unfolding select_within_budget
  select_within_budget-IsRetrieval items scores budget r h =
      let (pairs, hp, e) = bind_ok (map_raising (keyed_memory ops scores) items) _ h in
      let ordered = map (λ (p : F × MemoryItem F). p.1) (sorted (by_key ops) pairs) in
      let packed = pack-IsPacked cost ordered budget in
      let perm : Perm (map (λ (p : F × MemoryItem F). p.1) (sorted (by_key ops) pairs))
          (map (λ (p : F × MemoryItem F). p.1) pairs) =
        Perm.map (λ (p : F × MemoryItem F). p.1) (sorted-perm (by_key ops) pairs) in
      subst (IsRetrieval items budget) (ok-injective e) (record {
        within = omega (arith, packed.spent);
        dropped = (pack cost ordered budget).discarded;
        complete = Perm.trans packed.complete (rw (keyed_memory-map scores items hp) at perm);
        maximal =
            All-map _ _ (pack cost ordered budget).discarded (λ i h. omega (arith, packed.spent))
              packed.maximal;
      })

  -- Memories that are retrieved are a packing of the candidates under the budget: they fit, and no
  -- other candidate would still fit.
  pub retrieve_relevant_memories-IsRetrieval :
      (words : String → List String) (items : List (MemoryItem F)) (budget : ℕ) (query : String)
      (weights : Option (Dict F)) (r : List (MemoryItem F))
      → retrieve_relevant_memories ops words items budget query weights ≡ ok r
      → IsRetrieval items budget r
  unfolding retrieve_relevant_memories
  retrieve_relevant_memories-IsRetrieval words [] budget query weights r h =
      subst (IsRetrieval [] budget) (ok-injective h)
        (record { within = omega arith; dropped = []; complete = Perm.nil; maximal = tt })
  retrieve_relevant_memories-IsRetrieval words (i ∷ items) budget query weights r h =
      let (scores, _, e) = bind_ok (score_memories ops words (i ∷ items) query weights) _ h in
      select_within_budget-IsRetrieval (i ∷ items) scores budget r e

  -- What is injected into the context costs what the memories cost.
  pub to_context_items-tokens :
      (items : List (MemoryItem F)) (stamps : ℕ → Stamp F) (n : ℕ)
      → sum_by (λ (i : ContextItem F). i.token_count) (to_context_items ops items stamps n)
        ≡ sum_by cost items
  unfolding to_context_items to_context_item post_init
  to_context_items-tokens [] stamps n = refl
  to_context_items-tokens (i ∷ items) stamps n =
      omega (arith, to_context_items-tokens items stamps (n + 1))
