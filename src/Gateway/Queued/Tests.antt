-- ===== src/Gateway/Queued/Tests.antt =====
-- The route /queued/generate at one request.
use fleet_llm_inference.Common.{
  ℕ, zero, suc, String, ◌≡◌, refl, false, none, some, [], ◌∷◌, ◌++◌, is_some, if◌then◌else◌,
}
use fleet_llm_inference.Common.Raises.{ok, raised, http}
use fleet_llm_inference.Dict
use fleet_llm_inference.Dict.{Dict, empty}
use fleet_llm_inference.Redis.{Json}
use fleet_llm_inference.Redis.Codec.{
  Codec, nat_codec, text_codec, list_codec, pair_codec, mapped_codec, json_of,
}
use fleet_llm_inference.Redis.Results.{result_dict}
use fleet_llm_inference.Redis.Streams.Memory.{memory_streams, memory_streams-IsStreams}
use fleet_llm_inference.JobQueue.Fields.{encode_fields}
use fleet_llm_inference.JobQueue.Tests.{jobs, busy}
use fleet_llm_inference.Workers.Pool.Results.{get_result}
use fleet_llm_inference.Gateway.{GenerateRequest}
use fleet_llm_inference.Gateway.Tests.{gateway}
use fleet_llm_inference.Gateway.Queued.{
  Value, null, text, number, Backend, queued_generate, is_empty,
}
use fleet_llm_inference.Gateway.Queued.Outcomes.{
  queued_generate_lem, failures_after, body_of, job_for,
}

-- A value, by its kind, its text and its number.
abbrev fields : Value → ℕ × (String × ℕ)
fields null = (0, ("", 0))
fields (text t) = (1, (t, 0))
fields (number n) = (2, ("", n))

abbrev of_fields : ℕ × (String × ℕ) → Value
of_fields (zero, (t, n)) = null
of_fields (suc zero, (t, n)) = text t
of_fields (suc (suc k), (t, n)) = number n

pub of_fields-fields : (v : Value) → of_fields (fields v) ≡ v
of_fields-fields null = refl
of_fields-fields (text t) = refl
of_fields-fields (number n) = refl

abbrev value_codec : Codec Value
value_codec =
    mapped_codec (pair_codec nat_codec (pair_codec text_codec nat_codec)) fields of_fields
      of_fields-fields

abbrev values : Json Value
values = json_of value_codec

abbrev results : Json (Dict Value)
results = json_of (
    mapped_codec (list_codec (pair_codec text_codec value_codec)) (λ (d : Dict Value). d.entries)
      (λ l. record { entries = l }) (λ d. refl))

abbrev request : GenerateRequest
request = record {
  agent = record {
    agent_id = none;
    workflow_id = some "w";
    request_id = some "r";
    parent_request_id = none;
  };
  prompt = "hello";
  model = none;
  stream = false;
}

abbrev backend : Backend ℕ memory_streams result_dict values results jobs
backend = record { jobs = gateway 8; streams = busy; results = empty }

queued_generate_lem_example :
    let (s', r) =
      queued_generate ℕ memory_streams result_dict values results jobs
        (λ s. s)
        request
        (some "key")
        "uuid"
        backend in
    let polled = get_result result_dict results (λ s. s) "r" 120 empty in
    (polled.1 ≡ ok none
      → (r ≡ raised (http 504))
        × (s'.jobs.failures
            ≡ failures_after ℕ memory_streams result_dict values results jobs
                memory_streams-IsStreams request backend))
    × ((result : Dict Value)
        → polled.1 ≡ ok (some result)
        → is_empty result ≡ false
        → (r
            ≡ ok (
                body_of ℕ memory_streams result_dict values results jobs memory_streams-IsStreams
                  request "uuid" result))
          × (s'.jobs.failures ≡ (
              if is_some (Dict.get result "error")
              then failures_after ℕ memory_streams result_dict values results jobs
                  memory_streams-IsStreams request backend
              else backend.jobs.failures)))
    × (s'.jobs.contexts ≡ backend.jobs.contexts)
    × (memory_streams-IsStreams.entries s'.streams "jobs"
        ≡ memory_streams-IsStreams.entries busy "jobs"
          ++ (
            "4",
            encode_fields values (
                job_for ℕ memory_streams result_dict values results jobs memory_streams-IsStreams
                  request "uuid" backend),
          )
            ∷ [])
queued_generate_lem_example =
    queued_generate_lem ℕ memory_streams result_dict values results jobs memory_streams-IsStreams
      (λ s. s) request "key" "uuid" backend refl
