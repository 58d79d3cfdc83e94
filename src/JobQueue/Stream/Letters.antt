-- ===== src/JobQueue/Stream/Letters.antt =====
-- Dead letters can be read again.
use fleet_llm_inference.Common.{
  ℕ, zero, suc, ◌≤◌, ◌<◌, String, ◌≡◌, refl, sym, ap, ◌∙◌, List, [], ◌∷◌, ◌++◌, arith, eq_refl,
  length, length-append, take,
}
use fleet_llm_inference.Common.Raises.{Result, ok, map_raising, bind_ok}
use fleet_llm_inference.Dict
use fleet_llm_inference.Dict.{Dict, get-put, get-empty, lookup, write}
use fleet_llm_inference.Redis.{Json, IsJson}
use fleet_llm_inference.Redis.Streams.{Streams, IsStreams, Entry}
use fleet_llm_inference.JobQueue.Stream.{
  TimeText, DeadJob, dead_fields, dead_letter, dead_job, list_all,
}

take_all {ℓ} : {A : Type ℓ} (n : ℕ) (xs : List A) → length xs ≤ n → take n xs ≡ xs
take_all zero [] h = refl
take_all (suc n) [] h = refl
take_all zero (x ∷ xs) h = absurd (omega arith)
take_all (suc n) (x ∷ xs) h = ap (λ l. x ∷ l) (take_all n xs (omega arith))

map_raising-append_one :
    {A B : Type 0} (f : A → Result B) (xs : List A) (x : A) (ys : List B) (y : B)
    → map_raising f xs ≡ ok ys
    → f x ≡ ok y
    → map_raising f (xs ++ x ∷ []) ≡ ok (ys ++ y ∷ [])
unfolding map_raising
map_raising-append_one f [] x ys y h e = ground (arith, h, e)
map_raising-append_one f (z ∷ xs) x ys y h e =
    let (b, p, rest) = bind_ok (f z) _ h in
    let (bs, q, last) = bind_ok (map_raising f xs) _ rest in
    ground (arith, p, map_raising-append_one f xs x bs y q e)

module _ {F V : Type 0} (R : Streams) (json : Json (Dict V)) (times : TimeText F) (dlq_key : String)
    (L : IsStreams R) (J : IsJson json)
    (read-show : (t : F) → times.read (times.show t) ≡ ok t) where
  abbrev pub letter : String → String → String → Dict V → F → DeadJob F V
  letter entry_id i reason payload t = record {
    entry_id = entry_id;
    original_entry_id = i;
    reason = reason;
    failed_at = t;
    payload = payload;
  }

  dead_job-dead_fields :
      (entry_id i reason : String) (payload : Dict V) (t : F)
      → dead_job R json times dlq_key
          (entry_id, dead_fields R json times dlq_key i payload reason t)
        ≡ ok (letter entry_id i reason payload t)
  unfolding dead_job Dict.get Dict.put lookup write Dict.empty
  dead_job-dead_fields entry_id i reason payload t =
      ground (arith, read-show t, J.loads-dumps payload)

  -- A job that is dead-lettered is at the end of what `list_all` gives, with its id, its reason, its
  -- time and its payload, where the count leaves room and what was there can be read.
  pub list_all-dead_letter :
      (s : R.State) (i reason : String) (payload : Dict V) (t : F) (count : ℕ)
      (jobs : List (DeadJob F V))
      → (list_all R json times dlq_key count s).1 ≡ ok jobs
      → length (L.entries s dlq_key) < count
      → let (s', r) = dead_letter R json times dlq_key i payload reason t s in
        (entry_id : String) × (r ≡ ok entry_id)
        × ((list_all R json times dlq_key count s').1
            ≡ ok (jobs ++ letter entry_id i reason payload t ∷ []))
  unfolding list_all dead_letter
  list_all-dead_letter s i reason payload t count jobs h room =
      let f = dead_fields R json times dlq_key i payload reason t in
      let s' = (R.xadd s dlq_key f).0 in
      let new : Entry = ((R.xadd s dlq_key f).1, f) in
      let old = L.entries s dlq_key in
      let grown : L.entries s' dlq_key ≡ old ++ new ∷ [] =
        L.entries-xadd s dlq_key f dlq_key ∙ rw (eq_refl dlq_key) refl in
      (
        (R.xadd s dlq_key f).1,
        refl,
        ap (map_raising (dead_job R json times dlq_key)) (
              xrange_all s' count (omega (arith, ap length grown, length-append old (new ∷ [])))
              ∙ grown)
            ∙ map_raising-append_one (dead_job R json times dlq_key) old new jobs _
                (ap (map_raising (dead_job R json times dlq_key))
                    (sym (xrange_all s count (omega arith)))
                  ∙ h)
                (dead_job-dead_fields new.0 i reason payload t),
      )
    where
      xrange_all :
          (u : R.State) (n : ℕ)
          → length (L.entries u dlq_key) ≤ n
          → R.xrange u dlq_key n ≡ L.entries u dlq_key
      xrange_all u n k = L.xrange_lem u dlq_key n ∙ take_all n (L.entries u dlq_key) k
