-- ===== src/JobQueue/Stream.antt =====
-- The methods of job_queue/streams.py and job_queue/dead_letter.py.
pub mod Letters
use fleet_llm_inference.Common.{ℕ, String, Option, none, some, List, [], ◌∷◌}
use fleet_llm_inference.Common.Raises.{Result, ok, or_key_error, map_raising, ◌>>=◌}
use fleet_llm_inference.Common.Actions.{Action}
use fleet_llm_inference.Dict
use fleet_llm_inference.Dict.{Dict}
use fleet_llm_inference.Redis.{Json}
use fleet_llm_inference.Redis.Streams.{Streams, Entry}
use fleet_llm_inference.JobQueue.Fields.{encode_fields, decode_entries}

pub record Queue : Type 0 where
  pub stream_key : String
  pub group_name : String
  pub consumer_name : String

module _ {V : Type 0} (R : Streams) (json : Json V) (q : Queue) where
  unfoldable pub enqueue : Dict V → Action R.State String
  unfolding encode_fields
  enqueue payload s =
      let (s', entry_id) = R.xadd s q.stream_key (encode_fields json payload) in (s', ok entry_id)

  -- The new entries for this consumer; without an answer the loop gets none.
  unfoldable pub read : ℕ → Action R.State (List (String × Dict V))
  unfolding decode_entries
  read count s =
      let (s', entries) = R.xreadgroup s q.group_name q.consumer_name q.stream_key count in
      (s', decode_entries json entries)

module _ (R : Streams) (q : Queue) where
  unfoldable pub ack : String → Action R.State (Unit {0})
  ack entry_id s = (R.xack s q.stream_key q.group_name entry_id, ok tt)

  unfoldable pub depth : Action R.State ℕ
  depth s = (s, ok (R.xlen s q.stream_key))

-- One dead-lettered job, as `list_all` gives it.
pub record DeadJob (F V : Type 0) : Type 0 where
  pub entry_id : String
  pub original_entry_id : String
  pub reason : String
  pub failed_at : F
  pub payload : Dict V

-- `str` and `float` of a time
pub record TimeText (F : Type 0) : Type 0 where
  pub show : F → String
  pub read : String → Result F

module _ {F V : Type 0} (R : Streams) (json : Json (Dict V)) (times : TimeText F)
    (dlq_key : String) where
  abbrev pub dead_fields : String → Dict V → String → F → Dict String
  dead_fields original_entry_id payload reason failed_at =
      Dict.put
        (Dict.put
          (Dict.put (Dict.put Dict.empty "original_entry_id" original_entry_id) "reason" reason)
          "failed_at" (times.show failed_at))
        "payload" (json.dumps payload)

  unfoldable pub dead_letter : String → Dict V → String → F → Action R.State String
  dead_letter original_entry_id payload reason failed_at s =
      let (s', entry_id) =
        R.xadd s dlq_key (dead_fields original_entry_id payload reason failed_at) in
      (s', ok entry_id)

  unfoldable pub dead_job : Entry → Result (DeadJob F V)
  dead_job (entry_id, fields) = do
    original_entry_id ← or_key_error (Dict.get fields "original_entry_id")
    reason ← or_key_error (Dict.get fields "reason")
    failed ← or_key_error (Dict.get fields "failed_at")
    failed_at ← times.read failed
    text ← or_key_error (Dict.get fields "payload")
    payload ← json.loads text
    ok (record {
      entry_id = entry_id;
      original_entry_id = original_entry_id;
      reason = reason;
      failed_at = failed_at;
      payload = payload;
    })

  unfoldable pub list_all : ℕ → Action R.State (List (DeadJob F V))
  unfolding map_raising dead_job
  list_all count s = (s, map_raising dead_job (R.xrange s dlq_key count))

  unfoldable pub dead_depth : Action R.State ℕ
  dead_depth s = (s, ok (R.xlen s dlq_key))
