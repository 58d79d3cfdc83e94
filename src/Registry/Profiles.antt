-- ===== src/Registry/Profiles.antt =====
-- The registry as a map from ids to profiles.
use fleet_llm_inference.Common.{
  String, ◌≡◌, refl, sym, ap, ◌∙◌, subst, false, Option, none, some, List, ◌==◌, arith,
  eq-append_left, ne-of_prefix, elem, if◌then◌else◌,
}
use fleet_llm_inference.Common.Raises.{Exception, Result, ok, raised}
use fleet_llm_inference.Common.Actions.{◌>>=◌}
use fleet_llm_inference.Redis.{KeyStore, IsKeyStore, holds, Json, IsJson}
use fleet_llm_inference.Registry.{
  WorkerRecord, worker_key_prefix, workers_set_key, key, parsed, keep_registered_at, get_worker,
  register, deregister,
}

-- No profile is kept under the key of the set.
pub key-ne : (worker_id : String) → (key worker_id == workers_set_key) ≡ false
key-ne worker_id = ne-of_prefix worker_key_prefix worker_id workers_set_key refl

eq-key : (i j : String) → (key i == key j) ≡ (i == j)
eq-key i j = eq-append_left worker_key_prefix i j

module _ (K : KeyStore) where
  abbrev pub members : K.State → List String
  members s = K.smembers s workers_set_key

  -- The set has just the ids that have a profile.
  abbrev pub IsListed : K.State → Type 0
  IsListed s = (i : String) → elem i (members s) ≡ holds K s (key i)

module _ {F : Type 0} (K : KeyStore) (json : Json (WorkerRecord F)) (L : IsKeyStore K)
    (J : IsJson json) where
  abbrev pub profile : K.State → String → Result (Option (WorkerRecord F))
  profile s i = parsed K json (K.get s (key i))

  abbrev saved : K.State → WorkerRecord F → K.State
  saved s r = K.sadd (K.set s (key r.worker_id) (json.dumps r)) workers_set_key r.worker_id

  get-saved :
      (s : K.State) (r : WorkerRecord F) (i : String)
      → K.get (saved s r) (key i)
        ≡ (if r.worker_id == i then some (json.dumps r) else K.get s (key i))
  get-saved s r i =
      L.get-sadd _ workers_set_key r.worker_id (key i) (key-ne i)
      ∙ L.get-set s (key r.worker_id) (json.dumps r) (key i)
      ∙ rw (eq-key r.worker_id i) refl

  worker_id-keep :
      (existing : Option (WorkerRecord F)) (r : WorkerRecord F)
      → (keep_registered_at existing r).worker_id ≡ r.worker_id
  worker_id-keep none r = refl
  worker_id-keep (some e) r = refl

  register-ok :
      (s : K.State) (r : WorkerRecord F) (existing : Option (WorkerRecord F))
      → profile s r.worker_id ≡ ok existing
      → register K json r s
        ≡ (saved s (keep_registered_at existing r), ok (keep_registered_at existing r))
  unfolding register get_worker
  register-ok s r existing p = rw (p, ◌>>=◌) refl

  profile-saved :
      (s : K.State) (r : WorkerRecord F) (i : String)
      → profile (saved s r) i ≡ (if r.worker_id == i then ok (some r) else profile s i)
  profile-saved s r i = ground (arith, get-saved s r i, J.loads-dumps r)

  saved-IsListed : (s : K.State) (r : WorkerRecord F) → IsListed K s → IsListed K (saved s r)
  saved-IsListed s r h i =
      L.smembers-sadd (K.set s (key r.worker_id) (json.dumps r)) workers_set_key r.worker_id i
      ∙ ground (
        arith,
        L.smembers-set s (key r.worker_id) (json.dumps r) workers_set_key (key-ne r.worker_id),
        get-saved s r i,
        h i,
      )

  pub get_worker-register :
      (s : K.State) (r : WorkerRecord F)
      → let (s', result) = register K json r s in
        ((existing : Option (WorkerRecord F))
          → profile s r.worker_id ≡ ok existing
          → let kept = keep_registered_at existing r in
            (result ≡ ok kept)
            × ((i : String)
                → profile s' i ≡ (if r.worker_id == i then ok (some kept) else profile s i))
            × (IsListed K s → IsListed K s'))
        × ((e : Exception) → profile s r.worker_id ≡ raised e → (result ≡ raised e) × (s' ≡ s))
  unfolding register get_worker
  get_worker-register s r = (
    λ existing p.
        let kept = keep_registered_at existing r in
        let q = register-ok s r existing p in
        let same = worker_id-keep existing r in
        (
          ap (λ x. x.1) q,
          λ i. ap (λ x. profile x.0 i) q ∙ profile-saved s kept i ∙ rw same refl,
          λ h. subst (λ x. IsListed K x.0) (sym q) (saved-IsListed s kept h),
        ),
    λ e p. (rw (p, ◌>>=◌) refl, rw (p, ◌>>=◌) refl),
  )

  get-deregister :
      (s : K.State) (k i : String)
      → K.get (deregister K k s).0 (key i) ≡ (if k == i then none else K.get s (key i))
  unfolding deregister
  get-deregister s k i =
      L.get-srem (K.delete s (key k)) workers_set_key k (key i) (key-ne i)
      ∙ L.get-delete s (key k) (key i)
      ∙ rw (eq-key k i) refl

  -- After a deregistration the worker has no profile, all other profiles stay, the set of ids stays in
  -- step, and the answer tells whether there was one.
  pub get_worker-deregister :
      (s : K.State) (k : String)
      → let (s', removed) = deregister K k s in
        (removed ≡ ok (holds K s (key k)))
        × ((i : String) → profile s' i ≡ (if k == i then ok none else profile s i))
        × (IsListed K s → IsListed K s')
  unfolding deregister
  get_worker-deregister s k = (
    refl,
    λ i. ground (arith, get-deregister s k i),
    λ h i.
        L.smembers-srem (K.delete s (key k)) workers_set_key k i
        ∙ ground (
          arith,
          L.smembers-delete s (key k) workers_set_key (key-ne k),
          get-deregister s k i,
          h i,
        ),
  )
