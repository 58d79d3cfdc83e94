-- ===== src/Agent/Session.antt =====
-- `build_payload`, `register`, `deregister` and `run` of scripts/worker_agent.py. The state is what the
-- agent has sent to the gateway, the newest first; what came back is an argument.
pub mod Goodbye
use fleet_llm_inference.Common.{
  ℕ, String, Bool, true, false, Option, none, some, List, [], ◌∷◌, leb, ltb, eqb, ◌&&◌,
  if◌then◌else◌,
}
use fleet_llm_inference.Common.Raises.{Exception, Result, ok, raised}
use fleet_llm_inference.Common.Actions.{Action, pure, lift, ◌>>=◌, ◌>>◌}

pub record Arguments (F : Type 0) : Type 0 where
  pub worker_id : String
  pub worker_url : String
  pub name : String
  pub ram_gb : Option F
  pub vram_gb : Option F
  pub no_gpu : Bool
  pub once : Bool
  pub no_deregister_on_exit : Bool

pub record Payload (F : Type 0) : Type 0 where
  pub worker_id : String
  pub url : String
  pub name : String
  pub ram_gb : F
  pub has_gpu : Bool
  pub vram_gb : Option F
  pub models : List String

-- What the machine and its Ollama tell when a payload is built.
pub record Detected (F : Type 0) : Type 0 where
  pub ram_gb : F
  pub gpu : Bool × Option F
  pub models : Result (List String)

-- A response has a status, and the body that is read from it; `none` is an httpx.HTTPError.
abbrev pub Response : Type 0
Response = Option (ℕ × Result (Unit {0}))

pub data Sent (F : Type 0) : Type 0 where
  registration : Payload F → Sent F
  deregistration : String → Sent F

abbrev pub or_detected : {F : Type 0} → Option F → F → F
or_detected none detected = detected
or_detected (some given) detected = given

-- The branches on `--no-gpu` and `--vram-gb`.
abbrev pub gpu_of : {F : Type 0} → Bool → Option F → Bool × Option F → Bool × Option F
gpu_of true vram_gb detected = (false, none)
gpu_of false (some vram_gb) detected = (true, some vram_gb)
gpu_of false none detected = detected

-- `except Exception: models = []`
abbrev pub models_or_none : Result (List String) → List String
models_or_none (ok models) = models
models_or_none (raised e) = []

-- A body that cannot be read raises.
abbrev pub accepted : Result (Unit {0}) → Result Bool
accepted (ok u) = ok true
accepted (raised e) = raised e

abbrev pub judged : Response → Result Bool
judged none = ok false
judged (some (status, body)) = if leb 200 status && ltb status 300 then accepted body else ok false

module _ {F : Type 0} where
  unfoldable pub build_payload : Arguments F → Detected F → Payload F
  build_payload args found = record {
    worker_id = args.worker_id;
    url = args.worker_url;
    name = args.name;
    ram_gb = or_detected args.ram_gb found.ram_gb;
    has_gpu = (gpu_of args.no_gpu args.vram_gb found.gpu).0;
    vram_gb = (gpu_of args.no_gpu args.vram_gb found.gpu).1;
    models = models_or_none found.models;
  }

  unfoldable pub register : Payload F → Response → Action (List (Sent F)) Bool
  register payload response sent = (registration payload ∷ sent, judged response)

  unfoldable pub deregister : String → Action (List (Sent F)) (Unit {0})
  deregister worker_id sent = (deregistration worker_id ∷ sent, ok tt)

  -- The heartbeats until the agent is stopped: for each the machine and the response.
  unfoldable pub heartbeats :
      Arguments F → List (Detected F × Response) → Action (List (Sent F)) (Unit {0})
  unfolding register build_payload
  heartbeats args [] = pure tt
  heartbeats args ((found, response) ∷ beats) = do
    register (build_payload args found) response
    heartbeats args beats

  -- `finally`
  abbrev pub after_all :
      Arguments F → List (Sent F) × Result (Unit {0}) → List (Sent F) × Result (Unit {0})
  after_all args (sent, result) =
      if args.no_deregister_on_exit
      then (sent, result)
      else ((deregister args.worker_id sent).0, result)

  -- After the first registration; `--once` exits.
  abbrev pub stay :
      Arguments F → List (Detected F × Response) → Bool → Action (List (Sent F)) (Unit {0})
  stay args beats accepted sent =
      if args.once then (sent, ok tt) else after_all args (heartbeats args beats sent)

  -- `run`, with the arguments filled in.
  unfoldable pub run :
      Arguments F
      → Detected F
      → Response
      → List (Detected F × Response)
      → Action (List (Sent F)) (Unit {0})
  unfolding register build_payload heartbeats deregister
  run args found response beats = do
    accepted ← register (build_payload args found) response
    stay args beats accepted
