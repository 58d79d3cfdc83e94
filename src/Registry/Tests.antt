-- ===== src/Registry/Tests.antt =====
-- The registry's theorems at concrete workers.
use fleet_llm_inference.Common.{
  ℕ, String, ◌≡◌, refl, Bool, true, false, Option, none, some, List, [], ◌∷◌, eqb,
}
use fleet_llm_inference.Dict.{empty}
use fleet_llm_inference.Dict
use fleet_llm_inference.Redis.{Json, IsJson}
use fleet_llm_inference.Redis.Memory.{Memory, memory_store}
use fleet_llm_inference.Redis.Codec.{
  Codec, nat_codec, text_codec, list_codec, pair_codec, mapped_codec, json_of, json_of-IsJson,
}
use fleet_llm_inference.Registry.{WorkerRecord, register}

abbrev Fields : Type 0
Fields = String × (String × (String × (ℕ × (ℕ × (List ℕ × (List String × (ℕ × ℕ)))))))

abbrev of_bool : Bool → ℕ
of_bool true = 1
of_bool false = 0

abbrev of_option : Option ℕ → List ℕ
of_option none = []
of_option (some n) = n ∷ []

abbrev to_option : List ℕ → Option ℕ
to_option [] = none
to_option (n ∷ l) = some n

abbrev fields : WorkerRecord ℕ → Fields
fields r = (
  r.worker_id,
  (
    r.url,
    (
      r.name,
      (
        r.ram_gb,
        (of_bool r.has_gpu, (of_option r.vram_gb, (r.models, (r.registered_at, r.last_heartbeat)))),
      ),
    ),
  ),
)

abbrev of_fields : Fields → WorkerRecord ℕ
of_fields
      (
        worker_id,
        (url, (name, (ram_gb, (has_gpu, (vram_gb, (models, (registered_at, last_heartbeat))))))),
      ) =
    record {
      worker_id = worker_id;
      url = url;
      name = name;
      ram_gb = ram_gb;
      has_gpu = eqb has_gpu 1;
      vram_gb = to_option vram_gb;
      models = models;
      registered_at = registered_at;
      last_heartbeat = last_heartbeat;
    }

bool_lem : (b : Bool) → eqb (of_bool b) 1 ≡ b
bool_lem true = refl
bool_lem false = refl

option_lem : (o : Option ℕ) → to_option (of_option o) ≡ o
option_lem none = refl
option_lem (some n) = refl

pub of_fields-fields : (r : WorkerRecord ℕ) → of_fields (fields r) ≡ r
of_fields-fields r = rw (bool_lem r.has_gpu) (rw (option_lem r.vram_gb) refl)

abbrev fields_codec : Codec Fields
fields_codec = pair_codec text_codec (
    pair_codec text_codec (
      pair_codec text_codec (
        pair_codec nat_codec (
          pair_codec nat_codec (
            pair_codec (list_codec nat_codec)
              (pair_codec (list_codec text_codec) (pair_codec nat_codec nat_codec)))))))

abbrev pub worker_json : Json (WorkerRecord ℕ)
worker_json = json_of (mapped_codec fields_codec fields of_fields of_fields-fields)

pub worker_json-IsJson : IsJson worker_json
worker_json-IsJson = json_of-IsJson (mapped_codec fields_codec fields of_fields of_fields-fields)

abbrev pub no_workers : Memory
no_workers = record { texts = empty; sets = empty }

abbrev pub mac : ℕ → WorkerRecord ℕ
mac now = record {
  worker_id = "mac";
  url = "http://mac:11434";
  name = "mac";
  ram_gb = 16;
  has_gpu = true;
  vram_gb = none;
  models = "llama" ∷ [];
  registered_at = now;
  last_heartbeat = now;
}

abbrev first_state : Memory
first_state = (register memory_store worker_json (mac 3) no_workers).0
