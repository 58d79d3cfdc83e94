-- ===== src/JobQueue/Fields.antt =====
-- The fields of an entry: `encode_fields` and `decode_fields` of job_queue/streams.py.
use fleet_llm_inference.Common.{String, ◌≡◌, refl, List, [], ◌∷◌, map, arith}
use fleet_llm_inference.Common.Raises.{Result, ok, ◌>>=◌}
use fleet_llm_inference.Dict.{Dict}
use fleet_llm_inference.Redis.{Json, IsJson}
use fleet_llm_inference.Redis.Streams.{Entry}

module _ {V : Type 0} (json : Json V) where
  unfoldable pub encode_fields : Dict V → Dict String
  encode_fields payload = record {
    entries = map (λ (e : String × V). (e.0, json.dumps e.1)) payload.entries;
  }

  unfoldable pub decode_values : List (String × String) → Result (List (String × V))
  decode_values [] = ok []
  decode_values ((k, text) ∷ fields) = do
    v ← json.loads text
    rest ← decode_values fields
    ok ((k, v) ∷ rest)

  unfoldable pub decode_fields : Dict String → Result (Dict V)
  unfolding decode_values
  decode_fields fields = do values ← decode_values fields.entries; ok (record { entries = values })

  -- `[(entry_id, decode_fields(fields)) for …]`
  unfoldable pub decode_entries : List Entry → Result (List (String × Dict V))
  unfolding decode_fields
  decode_entries [] = ok []
  decode_entries ((entry_id, fields) ∷ entries) = do
    payload ← decode_fields fields
    rest ← decode_entries entries
    ok ((entry_id, payload) ∷ rest)

module _ {V : Type 0} (json : Json V) (J : IsJson json) where
  decode_values-encode :
      (values : List (String × V))
      → decode_values json (map (λ (e : String × V). (e.0, json.dumps e.1)) values) ≡ ok values
  unfolding decode_values
  decode_values-encode [] = refl
  decode_values-encode ((k, v) ∷ values) =
      ground (arith, J.loads-dumps v, decode_values-encode values)

  -- Decoding the fields of an encoded payload gives the payload back.
  pub decode_fields-encode_fields :
      (payload : Dict V) → decode_fields json (encode_fields json payload) ≡ ok payload
  unfolding decode_fields encode_fields
  decode_fields-encode_fields payload = ground (arith, decode_values-encode payload.entries)
