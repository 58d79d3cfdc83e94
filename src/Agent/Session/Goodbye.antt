-- ===== src/Agent/Session/Goodbye.antt =====
-- What `run` of scripts/worker_agent.py sends in the end.
use fleet_llm_inference.Common.{
  ◌≤◌, length, ◌≡◌, refl, ap, ◌∙◌, Bool, false, List, [], ◌∷◌, All, if◌then◌else◌, arith, inl, inr,
}
use fleet_llm_inference.Common.Raises.{ok, Result-cases}
use fleet_llm_inference.Common.Actions.{and_then-ok}
use fleet_llm_inference.Agent.Session.{
  Arguments, Detected, Response, Sent, registration, deregistration, build_payload, register,
  deregister, heartbeats, judged, run, stay,
}

module _ {F : Type 0} (args : Arguments F) where
  -- A registration under the worker's own id.
  abbrev pub IsOwn : Sent F → Type 0
  IsOwn (registration payload) = payload.worker_id ≡ args.worker_id
  IsOwn (deregistration id) = ⊥

  heartbeats-IsOwn :
      (beats : List (Detected F × Response)) (sent : List (Sent F))
      → All IsOwn sent
      → All IsOwn (heartbeats args beats sent).0
  unfolding heartbeats register build_payload
  heartbeats-IsOwn [] sent h = h
  heartbeats-IsOwn ((found, response) ∷ beats) sent h = elim (Result-cases (judged response)) [
    | inl (a, e) ↦
        rw e (heartbeats-IsOwn beats (registration (build_payload args found) ∷ sent) (refl, h))
    | inr (x, e) ↦ rw e (refl, h)
  ]

  heartbeats-length :
      (beats : List (Detected F × Response)) (sent : List (Sent F))
      → length sent ≤ length (heartbeats args beats sent).0
  unfolding heartbeats register build_payload
  heartbeats-length [] sent = omega arith
  heartbeats-length ((found, response) ∷ beats) sent =
      let next = registration (build_payload args found) ∷ sent in
      elim (Result-cases (judged response)) [
        | inl (a, e) ↦ rw e (omega (arith, heartbeats-length beats next))
        | inr (x, e) ↦ rw e (omega arith)
      ]

  -- An agent that stays, and whose first registration did not raise, sends at least one registration, all
  -- under its own id, and then takes itself off the registry, also where a heartbeat raises. An agent
  -- that is to leave its entry there sends the registrations alone.
  pub run-goodbye :
      (found : Detected F) (response : Response) (beats : List (Detected F × Response)) (b : Bool)
      → args.once ≡ false
      → judged response ≡ ok b
      → (sent : List (Sent F)) × All IsOwn sent
        × (1 ≤ length sent)
        × ((run args found response beats []).0
            ≡ (if args.no_deregister_on_exit then sent else deregistration args.worker_id ∷ sent))
  unfolding run register deregister
  run-goodbye found response beats b o h =
      let first = registration (build_payload args found) ∷ [] in
      (
        (heartbeats args beats first).0,
        heartbeats-IsOwn beats first (refl, tt),
        heartbeats-length beats first,
        ap (λ p. p.0)
              (and_then-ok (register (build_payload args found) response []) (stay args beats) b h)
            ∙ rw o (ground arith),
      )
