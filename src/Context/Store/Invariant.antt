-- ===== src/Context/Store/Invariant.antt =====
-- The consistency of the two dictionaries of a ContextStore, which every operation keeps.
use fleet_llm_inference.Common.{
  String, ◌≡◌, inl, inr, Option, none, some, List, [], ◌∷◌, arith, eq_iff, elem, Distinct, truthy,
  elem-append, elem-remove_first, Distinct-remove_first, Distinct-append_one, Option-cases,
}
use fleet_llm_inference.Dict
use fleet_llm_inference.Dict.{Dict, get-put, get-pop, get-empty}
use fleet_llm_inference.Context.Models.{ContextItem, touch}
use fleet_llm_inference.Context.Store.{ContextStore, init, ids_of, add, get, delete, clear_workflow}
use fleet_llm_inference.Context.Store.Index.{
  names, names_unique, index_lem, unindex_lem, get-pop_all,
}

module _ {F : Type 0} where
  -- The workflow under which an entry of the items is listed.
  abbrev pub owner : Option (ContextItem F) → Option String
  owner none = none
  owner (some i) = truthy i.workflow_id

  -- Items stand under their own ids; the list of a workflow has no id twice, and holds exactly the
  -- ids of the stored items of that workflow.
  pub record IsConsistent (s : ContextStore F) : Type 0 where
    pub keyed : (k : String) (i : ContextItem F) → Dict.get s.items k ≡ some i → i.id ≡ k
    pub listed : (k w : String) → elem k (ids_of s w) ≡ names (owner (Dict.get s.items k)) w
    pub distinct : (w : String) → Distinct (ids_of s w)

  pub init-IsConsistent : IsConsistent init
  unfolding init
  init-IsConsistent = record {
    keyed = λ k i e. cc (get-empty {V = ContextItem F} k);
    listed = λ k w. ground (arith, get-empty {V = ContextItem F} k, get-empty {V = List String} w);
    distinct = λ w. rw get-empty tt;
  }

  pub add-IsConsistent :
      (s : ContextStore F) (item : ContextItem F)
      → IsConsistent s
      → Dict.get s.items item.id ≡ none
      → IsConsistent (add s item)
  unfolding add
  add-IsConsistent s item c fresh = record {
    keyed = λ k i e. ground (arith, get-put s.items item.id k item, c.keyed k i, eq_iff item.id k);
    listed = λ k w. ground (
      arith,
      get-put s.items item.id k item,
      c.listed k w,
      eq_iff item.id k,
      eq_iff k item.id,
      index_lem (truthy item.workflow_id) w item.id s.by_workflow,
      elem-append k (ids_of s w) (item.id ∷ []),
    );
    distinct = λ w. rw index_lem (
        ground (arith, c.distinct w, c.listed item.id w, Distinct-append_one item.id (ids_of s w)));
  }

  pub get-IsConsistent :
      (s : ContextStore F) (k : String) (now : F) → IsConsistent s → IsConsistent (get s k now).0
  unfolding get
  get-IsConsistent s k now c = elim (Option-cases (Dict.get s.items k)) [
    | inl e ↦ rw (e, get) c
    | inr (i, e) ↦
        rw (e, get)
          (record {
            keyed = λ j x h.
                ground (
                  arith,
                  get-put s.items k j (touch i now),
                  c.keyed j x,
                  c.keyed k i e,
                  eq_iff k j,
                );
            listed =
                λ j w. ground (arith, get-put s.items k j (touch i now), c.listed j w, eq_iff k j);
            distinct = c.distinct;
          })
  ]

  pub delete-IsConsistent :
      (s : ContextStore F) (k : String) → IsConsistent s → IsConsistent (delete s k).0
  unfolding delete
  delete-IsConsistent s k c = elim (Option-cases (Dict.get s.items k)) [
    | inl e ↦ rw (e, delete) c
    | inr (i, e) ↦
        rw (e, delete)
          (record {
            keyed = λ j x h. ground (arith, get-pop s.items k j, c.keyed j x, eq_iff k j);
            listed = λ j w. ground (
              arith,
              get-pop s.items k j,
              c.listed j w,
              eq_iff k j,
              unindex_lem (truthy i.workflow_id) w k s.by_workflow,
              elem-remove_first j k (ids_of s w) (c.distinct w),
            );
            distinct = λ w.
                rw unindex_lem (ground (arith, c.distinct w, Distinct-remove_first k (ids_of s w)));
          })
  ]

  pub clear_workflow-IsConsistent :
      (s : ContextStore F) (v : String) → IsConsistent s → IsConsistent (clear_workflow s v).0
  unfolding clear_workflow
  clear_workflow-IsConsistent s v c = record {
    keyed = λ j x h. ground (arith, get-pop_all (ids_of s v) j s.items, c.keyed j x);
    listed = λ j w. ground (
      arith,
      get-pop_all (ids_of s v) j s.items,
      c.listed j v,
      c.listed j w,
      get-pop s.by_workflow v w,
      eq_iff v w,
      names_unique (owner (Dict.get s.items j)) v w,
    );
    distinct = λ w. ground (arith, get-pop s.by_workflow v w, c.distinct w);
  }
