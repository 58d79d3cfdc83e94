-- ===== src/JobQueue/Tests.antt =====
-- The job queue's theorems at a small stream.
use fleet_llm_inference.Common.{
  ℕ, ◌<◌, String, ◌≡◌, ◌≢◌, refl, Bool, true, false, none, List, [], ◌∷◌, ◌++◌, elem, ◌==◌,
  if◌then◌else◌, arith, length,
}
use fleet_llm_inference.Common.Raises.{ok, map_raising}
use fleet_llm_inference.Dict
use fleet_llm_inference.Dict.{Dict, empty, lookup}
use fleet_llm_inference.Redis.{Json}
use fleet_llm_inference.Redis.Codec.{
  Codec, nat_codec, text_codec, list_codec, pair_codec, mapped_codec, json_of, json_of-IsJson,
}
use fleet_llm_inference.Redis.Streams.Memory.{Memory, memory_streams, memory_streams-IsStreams}
use fleet_llm_inference.JobQueue.Stream.{Queue, TimeText, dead_letter, list_all}
use fleet_llm_inference.JobQueue.Stream.Letters.{letter, list_all-dead_letter}
use fleet_llm_inference.JobQueue.Retry.{reclaim_stale, split}
use fleet_llm_inference.JobQueue.Retry.Reclaim.{pending, reclaim_stale_total}
use fleet_llm_inference.JobQueue.Retry.Recover.{fields_of, buried, delivered, exhausted, split_lem}

abbrev pub dict_codec : Codec (Dict String)
dict_codec =
    mapped_codec (list_codec (pair_codec text_codec text_codec)) (λ (d : Dict String). d.entries)
      (λ l. record { entries = l }) (λ d. refl)

abbrev pub payloads : Json (Dict String)
payloads = json_of dict_codec

abbrev pub times : TimeText ℕ
times = record { show = (json_of nat_codec).dumps; read = (json_of nat_codec).loads }

abbrev pub texts : Json String
texts = json_of text_codec

abbrev pub jobs : Queue
jobs = record { stream_key = "jobs"; group_name = "g"; consumer_name = "c" }

abbrev pub prompt : String → Dict String
prompt t = record { entries = ("prompt", t) ∷ [] }

-- Two pending entries, the first of them delivered five times, and a new one.
abbrev pub busy : Memory
busy = record {
  streams = record {
    entries =
        (
          "jobs",
          ("1", prompt (texts.dumps "a"))
              ∷ ("2", prompt (texts.dumps "b"))
              ∷ ("3", prompt (texts.dumps "c"))
              ∷ [],
        )
        ∷ [];
  };
  pending = record { entries = ("1", 5) ∷ ("2", 1) ∷ [] };
  next_id = "4";
}

abbrev read_show : (t : ℕ) → times.read (times.show t) ≡ ok t
read_show = (json_of-IsJson nat_codec).loads-dumps

none_dead : (list_all memory_streams payloads times "dead" 10 busy).1 ≡ ok []
unfolding list_all map_raising Dict.get lookup
none_dead = refl

room : length (memory_streams-IsStreams.entries busy "dead") < 10
unfolding Dict.get lookup
room = omega arith

list_all-dead_letter_example :
    let (s', r) =
      dead_letter memory_streams payloads times "dead" "1"
        (prompt "a")
        "max_retries_exceeded"
        7
        busy in
    (entry_id : String) × (r ≡ ok entry_id)
    × ((list_all memory_streams payloads times "dead" 10 s').1
        ≡ ok (
            letter memory_streams payloads times "dead" memory_streams-IsStreams
              (json_of-IsJson dict_codec)
              read_show
              entry_id
              "1"
              "max_retries_exceeded"
              (prompt "a")
              7
            ∷ []))
list_all-dead_letter_example =
    list_all-dead_letter memory_streams payloads times "dead" memory_streams-IsStreams
      (json_of-IsJson dict_codec) read_show busy "1" "max_retries_exceeded" (prompt "a") 7 10 []
      none_dead room

two_pending : length (pending memory_streams texts jobs memory_streams-IsStreams busy) < 3
unfolding Dict.get lookup
two_pending = omega arith

reclaim_stale_total_example :
    (reclaim_stale memory_streams texts jobs 3 60000 "0-0" busy).1 ≢ ok none
reclaim_stale_total_example =
    reclaim_stale_total memory_streams texts jobs memory_streams-IsStreams 3 60000 busy two_pending

-- A call that may give one entry leaves the other to the next one.
pages :
    let (s', next, found) = memory_streams.xautoclaim busy "jobs" "group" "worker" 60000 "0-0" 1 in
    (found ≡ ("1", prompt ",a.") ∷ [])
    × (next ≡ "1")
    × ((memory_streams.xautoclaim s' "jobs" "group" "worker" 60000 next 1).2
        ≡ ("2", prompt ",b.") ∷ [])
unfolding Dict.get lookup
pages = (refl, refl, refl)

abbrev reclaimed : List (String × Dict String)
reclaimed = ("1", prompt "a") ∷ ("2", prompt "b") ∷ []

counted :
    (exhausted memory_streams texts payloads times "dead" jobs memory_streams-IsStreams 3 busy
        ("1", prompt "a")
      ≡ true)
    × (exhausted memory_streams texts payloads times "dead" jobs memory_streams-IsStreams 3 busy
          ("2", prompt "b")
        ≡ false)
unfolding Dict.get lookup
counted = (refl, refl)

abbrev is_first : String × Dict String → Bool
is_first e = e.0 == "1"

split_lem_example :
    let (s', r) = split memory_streams texts payloads times "dead" jobs 3 (λ i. 7) reclaimed busy in
    (r ≡ ok (record { retryable = ("2", prompt "b") ∷ []; dead_lettered = "1" ∷ [] }))
    × (fields_of memory_streams texts payloads times "dead" jobs memory_streams-IsStreams
          (memory_streams-IsStreams.entries s' "dead")
        ≡ fields_of memory_streams texts payloads times "dead" jobs memory_streams-IsStreams
            (memory_streams-IsStreams.entries busy "dead")
          ++ buried memory_streams texts payloads times "dead" jobs memory_streams-IsStreams
              (λ i. 7)
              (("1", prompt "a") ∷ []))
    × ((j : String)
        → delivered memory_streams texts payloads times "dead" jobs memory_streams-IsStreams s' j
          ≡ (if elem j ("1" ∷ [])
              then none
              else delivered memory_streams texts payloads times "dead" jobs
                  memory_streams-IsStreams busy j))
split_lem_example =
    split_lem memory_streams texts payloads times "dead" jobs memory_streams-IsStreams is_first 3
      (λ i. 7) reclaimed busy (refl, (refl, tt)) (counted.0, (counted.1, tt))
