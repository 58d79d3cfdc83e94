-- ===== src/Gateway/RegistryRoutes/Lifecycle.antt =====
-- A worker's stay in the registry, through the routes of gateway/routes.py.
use fleet_llm_inference.Common.{
  String, ◌≡◌, refl, ap, ◌∙◌, true, false, Option, none, some, ◌==◌, arith, eq_refl, is_some,
}
use fleet_llm_inference.Common.Raises.{ok, raised, http}
use fleet_llm_inference.Common.Actions.{◌>>=◌}
use fleet_llm_inference.Redis.{KeyStore, IsKeyStore, holds, Json, IsJson}
use fleet_llm_inference.Registry.{
  WorkerRecord, register, deregister, key, keep_registered_at, parsed,
}
use fleet_llm_inference.Registry.Profiles.{profile, get_worker-register, get_worker-deregister}
use fleet_llm_inference.Gateway.{Gateway, verify_api_key}
use fleet_llm_inference.Gateway.RegistryRoutes.{
  RegistrationRequest, worker_record, register_worker, deregister_worker, answer_removed,
}

module _ {F : Type 0} (K : KeyStore) (json : Json (WorkerRecord F)) (L : IsKeyStore K)
    (J : IsJson json) where
  parsed-none : (o : Option String) → parsed K json o ≡ ok none → is_some o ≡ false
  parsed-none none h = refl
  parsed-none (some raw) h = ground (arith, h)

  parsed-some :
      (o : Option String) (r : WorkerRecord F) → parsed K json o ≡ ok (some r) → is_some o ≡ true
  parsed-some none r h = cc
  parsed-some (some raw) r h = refl

  deregister_worker-valid :
      (g : Gateway F) (s : K.State) (worker_id api_key : String)
      → (api_key == g.config.api_key) ≡ true
      → deregister_worker K worker_id (some api_key) (g, s)
        ≡ answer_removed worker_id (holds K s (key worker_id)) (g, (deregister K worker_id s).0)
  unfolding deregister_worker verify_api_key deregister
  deregister_worker-valid g s worker_id api_key h = rw (h, ◌>>=◌) refl

  register_worker-valid :
      (g : Gateway F) (s : K.State) (req : RegistrationRequest F) (api_key : String) (now : F)
      → (api_key == g.config.api_key) ≡ true
      → register_worker K json req (some api_key) now (g, s) ≡ (
        (g, (register K json (worker_record req now) s).0),
        (register K json (worker_record req now) s).1,
      )
  unfolding register_worker verify_api_key
  register_worker-valid g s req api_key now h = rw (h, ◌>>=◌) refl

  -- With the right key, and where the profile stored before can be read: a registered worker can be
  -- removed once, which is answered with its id and leaves no profile; the next removal ends with status
  -- 404.
  pub deregister_worker-register_worker :
      (g : Gateway F) (s : K.State) (req : RegistrationRequest F) (api_key : String) (now : F)
      (existing : Option (WorkerRecord F))
      → (api_key == g.config.api_key) ≡ true
      → profile K json L J s req.worker_id ≡ ok existing
      → let (registered, saved) = register_worker K json req (some api_key) now (g, s) in
        let (removed, answer) = deregister_worker K req.worker_id (some api_key) registered in
        (saved ≡ ok (keep_registered_at existing (worker_record req now)))
        × (answer ≡ ok req.worker_id)
        × (profile K json L J removed.1 req.worker_id ≡ ok none)
        × ((deregister_worker K req.worker_id (some api_key) removed).1 ≡ raised (http 404))
  unfolding worker_record
  deregister_worker-register_worker g s req api_key now existing h p =
      let r = worker_record req now in
      let s₁ = (register K json r s).0 in
      let s₂ = (deregister K req.worker_id s₁).0 in
      let (a, b, _) = (get_worker-register K json L J s r).0 existing p in
      let there : holds K s₁ (key req.worker_id) ≡ true =
        parsed-some _ (keep_registered_at existing r)
          (b req.worker_id ∙ rw (eq_refl req.worker_id) refl) in
      let gone : profile K json L J s₂ req.worker_id ≡ ok none =
        (get_worker-deregister K json L J s₁ req.worker_id).1 req.worker_id
        ∙ rw (eq_refl req.worker_id) refl in
      let e = register_worker-valid g s req api_key now h in
      let d : deregister_worker K req.worker_id (some api_key) (g, s₁)
          ≡ ((g, s₂), ok req.worker_id) =
        deregister_worker-valid g s₁ req.worker_id api_key h ∙ rw there refl in
      let d' : (deregister_worker K req.worker_id (some api_key) (g, s₂)).1 ≡ raised (http 404) =
        ap (λ x. x.1) (deregister_worker-valid g s₂ req.worker_id api_key h)
        ∙ rw (parsed-none _ gone) refl in
      (rw e a, rw e (rw d refl), rw e (rw d gone), rw e (rw d d'))
