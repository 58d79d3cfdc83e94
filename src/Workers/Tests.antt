-- ===== src/Workers/Tests.antt =====
-- The theorems on the loops of the worker pool, at a small stream.
use fleet_llm_inference.Common.{ℕ, suc, String, ◌≡◌, refl, some, [], ◌∷◌, arith}
use fleet_llm_inference.Common.Raises.{ok}
use fleet_llm_inference.Common.Actions.{Action}
use fleet_llm_inference.Dict
use fleet_llm_inference.Dict.{Dict, empty, lookup, write}
use fleet_llm_inference.Redis.Codec.{text_codec, json_of-IsJson}
use fleet_llm_inference.Redis.Results.{result_dict, result_dict-IsResultStore}
use fleet_llm_inference.Redis.Streams.Memory.{memory_streams, memory_streams-IsStreams}
use fleet_llm_inference.JobQueue.Tests.{texts, payloads, times, jobs, busy, prompt}
use fleet_llm_inference.JobQueue.Fields.{decode_entries, decode_fields, decode_values}
use fleet_llm_inference.JobQueue.Stream.{read, dead_letter, ack}
use fleet_llm_inference.JobQueue.Retry.{
  RecoveryResult, recover, reclaim_stale, split, delivery_count,
}
use fleet_llm_inference.Workers.Pool.Results.{
  get_result, get_result_lem, IsQuiet, at_poll, result_key,
}
use fleet_llm_inference.Workers.Pool.Loops.{Pool, process_once, recover_once}
use fleet_llm_inference.Workers.Pool.Loops.Process.{process_once_lem, IsRound, after_read}
use fleet_llm_inference.Workers.Pool.Loops.Recovery.{recover_once_lem, IsHandled}

-- A job answers its prompt.
abbrev echo : Dict String → Action ℕ (String × String)
echo payload n = (suc n, ok ("r", "done"))

abbrev State : Type 0
State = Pool ℕ memory_streams.State (Dict String)

abbrev pool : State
pool = record { jobs = 0; streams = busy; results = empty }

process_once_lem_example :
    let (s', r) = process_once memory_streams result_dict texts texts jobs echo pool in
    (r ≡ ok tt)
    × IsRound memory_streams result_dict texts texts jobs echo memory_streams-IsStreams
        result_dict-IsResultStore
        (read memory_streams texts jobs 1 busy).1
        (after_read memory_streams result_dict texts texts jobs echo memory_streams-IsStreams
          result_dict-IsResultStore pool)
        s'
process_once_lem_example =
    process_once_lem memory_streams result_dict texts texts jobs echo memory_streams-IsStreams
      result_dict-IsResultStore pool

-- The result comes with the second poll.
abbrev arrive : Dict String → Dict String
arrive s = Dict.put s (result_key "r") (texts.dumps "done")

quiet : IsQuiet result_dict texts arrive (result_key "r") 1 empty
unfolding empty Dict.get lookup
quiet = (refl, tt)

there :
    result_dict.get (at_poll result_dict texts arrive 1 empty) (result_key "r")
    ≡ some (texts.dumps "done")
unfolding empty Dict.get Dict.put Dict.pop lookup write
there = refl

get_result_lem_example :
    get_result result_dict texts arrive "r" 120 empty
    ≡ (result_dict.delete (arrive empty) (result_key "r"), ok (some "done"))
get_result_lem_example =
    (get_result_lem result_dict texts (json_of-IsJson text_codec) arrive "r" 120 empty).0 1 "done"
      (omega arith) quiet there refl

abbrev recovery : RecoveryResult String
recovery = record { retryable = ("2", prompt "b") ∷ []; dead_lettered = "1" ∷ [] }

parted :
    (recover memory_streams texts payloads times "dead" jobs 1 3 60000 (λ i. 7) busy).1
    ≡ ok (some recovery)
unfolding recover reclaim_stale decode_entries decode_fields decode_values split delivery_count
    dead_letter ack Dict.get Dict.put Dict.pop lookup write
parted = refl

recover_once_lem_example :
    let streams =
      (recover memory_streams texts payloads times "dead" jobs 1 3 60000 (λ i. 7) busy).0 in
    let (s', r) =
      recover_once memory_streams result_dict texts texts jobs echo times payloads "dead" 1 3 60000
        (λ i. 7)
        pool in
    (r ≡ ok tt)
    × IsHandled memory_streams result_dict texts texts jobs echo memory_streams-IsStreams
        result_dict-IsResultStore recovery.retryable
        (record pool { streams = streams })
        s'
recover_once_lem_example =
    recover_once_lem memory_streams result_dict texts texts jobs echo memory_streams-IsStreams
      result_dict-IsResultStore times payloads "dead" 1 3 60000 (λ i. 7) pool recovery parted
