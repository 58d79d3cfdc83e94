-- ===== src/Registry/Listing.antt =====
-- What `list_workers` of registry/store.py returns, and what it repairs.
use fleet_llm_inference.Common.{
  String, ◌≡◌, refl, Bool, false, not, Option, none, some, List, [], ◌∷◌, map, arith, eq_iff, elem,
  if◌then◌else◌, inl, inr, Option-cases, All,
}
use fleet_llm_inference.Common.Raises.{Result, ok, raised}
use fleet_llm_inference.Redis.{KeyStore, IsKeyStore, holds, Json}
use fleet_llm_inference.Registry.{WorkerRecord, workers_set_key, key, parsed, collect, list_workers}
use fleet_llm_inference.Registry.Profiles.{members, key-ne}

module _ {F : Type 0} (K : KeyStore) (json : Json (WorkerRecord F)) (L : IsKeyStore K) where
  abbrev pub Readable : K.State → String → Type 0
  Readable s i = (o : Option (WorkerRecord F)) × (parsed K json (K.get s (key i)) ≡ ok o)

  abbrev add_profile :
      Result (Option (WorkerRecord F)) → List (WorkerRecord F) → List (WorkerRecord F)
  add_profile (ok (some r)) rs = r ∷ rs
  add_profile (ok none) rs = rs
  add_profile (raised e) rs = rs

  -- The profiles of some ids, in their order.
  abbrev pub profiles : K.State → List String → List (WorkerRecord F)
  profiles s [] = []
  profiles s (i ∷ ids) = add_profile (parsed K json (K.get s (key i))) (profiles s ids)

  abbrev answers : K.State → List String → List (String × Option String)
  answers s ids = map (λ (i : String). (i, K.get s (key i))) ids

  -- An id that has no profile.
  abbrev ghost : K.State → List String → String → Bool
  ghost s ids j = if elem j ids then not (holds K s (key j)) else false

  collect_lem :
      (ids : List String) (s₀ s : K.State)
      → All (Readable s₀) ids
      → let (s', r) = collect K json (answers s₀ ids) s in
        (r ≡ ok (profiles s₀ ids))
        × ((j : String) → K.get s' (key j) ≡ K.get s (key j))
        × ((j : String)
            → elem j (members K s') ≡ (if ghost s₀ ids j then false else elem j (members K s)))
  unfolding collect
  collect_lem [] s₀ s h = (refl, λ j. refl, λ j. refl)
  collect_lem (i ∷ ids) s₀ s ((o, e), h) = elim (Option-cases (K.get s₀ (key i))) [
    | inl n ↦
        let s₁ = K.srem s workers_set_key i in
        let (p, g, m) = collect_lem ids s₀ s₁ h in
        (
          ground (arith, n, p),
          λ j. ground (arith, n, g j, L.get-srem s workers_set_key i (key j) (key-ne j)),
          λ j.
              ground (arith, n, m j, L.smembers-srem s workers_set_key i j, eq_iff i j, eq_iff j i),
        )
    | inr (raw, n) ↦
        let (p, g, m) = collect_lem ids s₀ s h in
        (
          ground (arith, n, p, e),
          λ j. ground (arith, n, p, e, g j),
          λ j. ground (arith, n, p, e, m j, eq_iff i j, eq_iff j i),
        )
  ]

  -- Where all listed profiles can be read, the list has the profile of each listed id that has one,
  -- in the order of the set. No profile changes, and just the ids without a profile leave the set.
  pub list_workers_lem :
      (s : K.State)
      → All (Readable s) (members K s)
      → let (s', r) = list_workers K json s in
        (r ≡ ok (profiles s (members K s)))
        × ((j : String) → K.get s' (key j) ≡ K.get s (key j))
        × ((j : String)
            → elem j (members K s') ≡ (if elem j (members K s) then holds K s (key j) else false))
  unfolding list_workers
  list_workers_lem s h =
      let (p, g, m) = collect_lem (members K s) s s h in (p, g, λ j. ground (arith, m j))
