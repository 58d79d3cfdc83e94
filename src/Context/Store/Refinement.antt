-- ===== src/Context/Store/Refinement.antt =====
-- A ContextStore implements a log: the stored items in the order in which they were added.
use fleet_llm_inference.Common.{
  String, ◌≡◌, refl, inl, inr, ◌∙◌, sym, ap, not, none, List, [], ◌∷◌, ◌++◌, map, arith, ◌==◌,
  eq_iff, if◌then◌else◌, Distinct, keep, Option-cases, Bool-cases, keep-append, Distinct-append_one,
}
use mathlib.Core.List.{map-append, append-nil}
use mathlib.Core.Option
use fleet_llm_inference.Dict
use fleet_llm_inference.Dict.{Dict, get-put, get-pop, get-empty}
use fleet_llm_inference.Context.Models.{ContextItem}
use fleet_llm_inference.Context.Store.{
  ContextStore, init, ids_of, present, add, get, delete, clear_workflow,
}
use fleet_llm_inference.Context.Store.Index.{get-pop_all}
use fleet_llm_inference.Context.Store.Invariant.{
  IsConsistent, init-IsConsistent, add-IsConsistent, get-IsConsistent, delete-IsConsistent,
  clear_workflow-IsConsistent,
}
use fleet_llm_inference.Context.Store.Log.{
  in_workflow, find, find-append, absent-find, Distinct-keep, passing, find-keep, keep_comm,
  keep-not_self, keep-other, Distinct-touch, find-touch, keep-touch,
}
use fleet_llm_inference.Context.Store.View.{
  view, view-add, view-delete, view-clear_workflow, view-get, touch_at,
}

-- The calls that change a store.
pub data Op (F : Type 0) : Type 0 where
  adds : ContextItem F → Op F
  gets : String → F → Op F
  deletes : String → Op F
  clears : String → Op F

module _ {F : Type 0} where
  unfoldable pub step : ContextStore F → Op F → ContextStore F
  step s (adds item) = add s item
  step s (gets k now) = (get s k now).0
  step s (deletes k) = (delete s k).0
  step s (clears w) = (clear_workflow s w).0

  unfoldable pub run : ContextStore F → List (Op F) → ContextStore F
  unfolding step
  run s [] = s
  run s (op ∷ ops) = run (step s op) ops

  -- The same calls on the log.
  unfoldable pub log_step : List (ContextItem F) → Op F → List (ContextItem F)
  log_step log (adds item) = log ++ item ∷ []
  log_step log (gets k now) = map (touch_at k now) log
  log_step log (deletes k) = keep (λ i. not (i.id == k)) log
  log_step log (clears w) = keep (λ i. not (in_workflow w i)) log

  unfoldable pub log_run : List (ContextItem F) → List (Op F) → List (ContextItem F)
  unfolding log_step
  log_run log [] = log
  log_run log (op ∷ ops) = log_run (log_step log op) ops

  -- Every added item has an id that no stored item has, as `uuid4` promises.
  abbrev pub IsFresh : List (ContextItem F) → Op F → Type 0
  IsFresh log (adds item) = find item.id log ≡ none
  IsFresh log _ = Unit

  abbrev pub AreFresh : List (ContextItem F) → List (Op F) → Type 0
  AreFresh log [] = Unit
  AreFresh log (op ∷ ops) = IsFresh log op × AreFresh (log_step log op) ops

  pub record Represents (s : ContextStore F) (log : List (ContextItem F)) : Type 0 where
    pub consistent : IsConsistent s
    pub unique : Distinct (map (λ i. i.id) log)
    pub finds : (k : String) → Dict.get s.items k ≡ find k log
    pub views : (w : String) → view s w ≡ keep (in_workflow w) log

  items-get :
      (s : ContextStore F) (k : String) (now : F) (j : String)
      → IsConsistent s
      → Dict.get (get s k now).0.items j ≡ Option.map (touch_at k now) (Dict.get s.items j)
  unfolding get
  items-get s k now j c = elim (Option-cases (Dict.get s.items k)) [
    | inl e ↦
        rw (e, get)
          (elim (Option-cases (Dict.get s.items j)) [
            | inl h ↦ rw h
            | inr (i, h) ↦ rw h (ground (arith, c.keyed j i h, e, h, eq_iff i.id k))
          ])
    | inr (x, e) ↦
        rw (e, get, get-put)
          (elim (Option-cases (Dict.get s.items j)) [
            | inl h ↦ rw h (ground (arith, e, h, eq_iff k j))
            | inr (i, h) ↦ rw h (ground (arith, c.keyed j i h, e, h, eq_iff i.id k, eq_iff k j))
          ])
  ]

  pub items-delete :
      (s : ContextStore F) (k j : String)
      → IsConsistent s
      → Dict.get (delete s k).0.items j ≡ passing (λ i. not (i.id == k)) (Dict.get s.items j)
  unfolding delete
  items-delete s k j c = elim (Option-cases (Dict.get s.items k)) [
    | inl e ↦
        rw (e, delete)
          (elim (Option-cases (Dict.get s.items j)) [
            | inl h ↦ rw h
            | inr (i, h) ↦ rw h (ground (arith, c.keyed j i h, e, h, eq_iff i.id k))
          ])
    | inr (x, e) ↦
        rw (e, delete, get-pop)
          (elim (Option-cases (Dict.get s.items j)) [
            | inl h ↦ rw h (ground (arith, e, h, eq_iff k j))
            | inr (i, h) ↦ rw h (ground (arith, c.keyed j i h, e, h, eq_iff i.id k, eq_iff k j))
          ])
  ]

  add-Represents :
      (s : ContextStore F) (log : List (ContextItem F)) (item : ContextItem F)
      → Represents s log
      → find item.id log ≡ none
      → Represents (add s item) (log ++ item ∷ [])
  unfolding add
  add-Represents s log item r fresh =
      let absent : Dict.get s.items item.id ≡ none = r.finds item.id ∙ fresh in
      record {
        consistent = add-IsConsistent s item r.consistent absent;
        unique = rw map-append (
            Distinct-append_one item.id (map (λ i. i.id) log) r.unique
              (absent-find item.id log fresh));
        finds = λ k.
            ground (arith, r.finds k, find-append k log item fresh, get-put s.items item.id k item);
        views = λ w. rw (view-add s item w r.consistent absent) (
            ground (
              arith,
              r.views w,
              keep-append (in_workflow w) log (item ∷ []),
              append-nil (keep (in_workflow w) log),
            ));
      }

  gets-Represents :
      (s : ContextStore F) (log : List (ContextItem F)) (k : String) (now : F)
      → Represents s log
      → Represents (get s k now).0 (map (touch_at k now) log)
  unfolding get
  gets-Represents s log k now r = record {
    consistent = get-IsConsistent s k now r.consistent;
    unique = Distinct-touch k now log r.unique;
    finds = λ j. rw (items-get s k now j r.consistent, r.finds j) (sym (find-touch j k now log));
    views = λ w.
        rw (view-get s k now w r.consistent, keep-touch w k now log)
          (ap (map (touch_at k now)) (r.views w));
  }

  delete-Represents :
      (s : ContextStore F) (log : List (ContextItem F)) (k : String)
      → Represents s log
      → Represents (delete s k).0 (keep (λ i. not (i.id == k)) log)
  unfolding delete
  delete-Represents s log k r = record {
    consistent = delete-IsConsistent s k r.consistent;
    unique = Distinct-keep _ log r.unique;
    finds = λ j. rw (items-delete s k j r.consistent, r.finds j) (sym (find-keep j _ log r.unique));
    views = λ w. rw (view-delete s k w r.consistent, r.views w) (keep_comm _ _ log);
  }

  clear_workflow-Represents :
      (s : ContextStore F) (log : List (ContextItem F)) (v : String)
      → Represents s log
      → Represents (clear_workflow s v).0 (keep (λ i. not (in_workflow v i)) log)
  unfolding clear_workflow
  clear_workflow-Represents s log v r = record {
    consistent = clear_workflow-IsConsistent s v r.consistent;
    unique = Distinct-keep _ log r.unique;
    finds = λ k.
        rw (find-keep k _ log r.unique)
          (ground (arith, r.finds k, r.consistent.listed k v, get-pop_all (ids_of s v) k s.items));
    views = λ w. rw (view-clear_workflow s v w r.consistent) (if_other w);
  }
    where
      if_other :
          (w : String)
          → (if v == w then [] else view s w)
            ≡ keep (in_workflow w) (keep (λ i. not (in_workflow v i)) log)
      if_other w = elim (Bool-cases (v == w)) [
        | inl e ↦ rw (e, ((eq_iff v w).0 e)) (sym (keep-not_self (in_workflow w) log))
        | inr e ↦ rw (e, r.views w) (sym (keep-other v w log e))
      ]

  step-Represents :
      (s : ContextStore F) (log : List (ContextItem F)) (op : Op F)
      → Represents s log
      → IsFresh log op
      → Represents (step s op) (log_step log op)
  unfolding step log_step
  step-Represents s log (adds item) r h = add-Represents s log item r h
  step-Represents s log (gets k now) r h = gets-Represents s log k now r
  step-Represents s log (deletes k) r h = delete-Represents s log k r
  step-Represents s log (clears w) r h = clear_workflow-Represents s log w r

  -- After any calls, with fresh ids for what they add, the store represents the log of the same
  -- calls: it finds the same items, and lists those of each workflow in the log's order.
  pub run-Represents :
      (s : ContextStore F) (log : List (ContextItem F)) (ops : List (Op F))
      → Represents s log
      → AreFresh log ops
      → Represents (run s ops) (log_run log ops)
  unfolding run log_run
  run-Represents s log [] r h = r
  run-Represents s log (op ∷ ops) r h =
      run-Represents (step s op) (log_step log op) ops (step-Represents s log op r h.0) h.1

  pub init-Represents : Represents init []
  unfolding init view
  init-Represents = record {
    consistent = init-IsConsistent;
    unique = tt;
    finds = λ k. get-empty k;
    views = λ w. rw get-empty (unfold present in refl);
  }
