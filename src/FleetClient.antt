-- ===== src/FleetClient.antt =====
-- client/fleet_client.py: the requests of the client library and how it reads a response. A value of a
-- payload is JSON, whose type is a parameter; HTTP is left out.
use fleet_llm_inference.Common.{String, Option, none, some, List, ◌∷◌, truthy}
use fleet_llm_inference.Dict
use fleet_llm_inference.Dict.{Dict}

pub record Request (V : Type 0) : Type 0 where
  pub path : String
  pub payload : Dict V

module _ {V : Type 0} (text : String → V) where
  -- `{key: value, **metadata}`, and the model where one is given.
  unfoldable pub payload_with : String → V → Option String → List (String × V) → Dict V
  payload_with key value model metadata = elim (truthy model) [
    | none ↦ record { entries = (key, value) ∷ metadata }
    | some m ↦ Dict.put (record { entries = (key, value) ∷ metadata }) "model" (text m)
  ]

  unfoldable pub generate : String → Option String → List (String × V) → Request V
  unfolding payload_with
  generate prompt model metadata = record {
    path = "/api/v1/generate";
    payload = payload_with "prompt" (text prompt) model metadata;
  }

  unfoldable pub chat : V → Option String → List (String × V) → Request V
  unfolding payload_with
  chat messages model metadata = record {
    path = "/api/v1/chat";
    payload = payload_with "messages" messages model metadata;
  }

  unfoldable pub queued_generate : String → Option String → List (String × V) → Request V
  unfolding payload_with
  queued_generate prompt model metadata = record {
    path = "/api/v1/queued/generate";
    payload = payload_with "prompt" (text prompt) model metadata;
  }
