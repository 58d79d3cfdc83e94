-- ===== src/Simulate.antt =====
-- The traffic generator scripts/simulate.py: the workloads and the agents. Random numbers, readings of
-- the clock and what the gateway answers are given.
pub mod Rounds
pub mod Report
pub mod Run
pub mod Tests
use fleet_llm_inference.Common.{
  ℕ, zero, suc, ◌+◌, ◌-◌, ◌%◌, String, ◌<>◌, Bool, true, false, not, Option, none, some, List, [],
  ◌∷◌, ◌++◌, map, ◌==◌, if◌then◌else◌, length, get_elem?, ◌≡◌, refl, elem, All, arith,
}
use fleet_llm_inference.Common.Floats.{Floats}
use fleet_llm_inference.Common.Raises.{Result, ok, raised, key_error, or_key_error, ◌>>=◌}
use fleet_llm_inference.Dict
use fleet_llm_inference.Dict.{Dict}

pub record WorkloadProfile (F : Type 0) : Type 0 where
  pub name : String
  pub prompt_lengths : ℕ × ℕ
  pub think_time : F × F
  pub requests_per_burst : ℕ × ℕ

pub record RequestResult (F : Type 0) : Type 0 where
  pub workload : String
  pub latency : F
  pub succeeded : Bool
  pub status : ℕ

module _ {F : Type 0} (ops : Floats F) where
  unfoldable pub profiles : Dict (WorkloadProfile F)
  profiles = record {
    entries =
        (
          "coding",
          record {
            name = "coding";
            prompt_lengths = (60, 200);
            think_time = (ops.literal 2 10, ops.literal 8 10);
            requests_per_burst = (3, 6);
          },
        )
        ∷ (
          "research",
          record {
            name = "research";
            prompt_lengths = (300, 700);
            think_time = (ops.literal 15 10, ops.literal 30 10);
            requests_per_burst = (2, 3);
          },
        )
        ∷ (
          "batch",
          record {
            name = "batch";
            prompt_lengths = (20, 60);
            think_time = (ops.literal 0 10, ops.literal 2 10);
            requests_per_burst = (5, 10);
          },
        )
        ∷ [];
  }

-- `list(PROFILES)`
abbrev pub names : List String
names = "coding" ∷ "research" ∷ "batch" ∷ []

-- `random.choice(list(PROFILES))`
unfoldable pub choice : ℕ → String
choice zero = "coding"
choice (suc zero) = "research"
choice (suc (suc n)) = "batch"

abbrev chosen : (ℕ → ℕ) → ℕ → List String
chosen draw zero = []
chosen draw (suc n) = choice (draw zero % 3) ∷ chosen (λ i. draw (suc i)) n

abbrev repeated : String → ℕ → List String
repeated workload zero = []
repeated workload (suc n) = workload ∷ repeated workload n

unfoldable pub assign_workloads : ℕ → String → (ℕ → ℕ) → List String
unfolding choice
assign_workloads num_agents workload draw =
    if workload == "mixed" then chosen draw num_agents else repeated workload num_agents

-- `random.randint(low, high)`, by a number that is given
abbrev pub randint : ℕ × ℕ → ℕ → ℕ
randint (low, high) draw = low + draw % (high - low + 1)

-- What one agent meets: the k-th reading of `time.time()`, the latency and the success of its k-th
-- request, and the random number of its k-th burst.
pub record Course (F : Type 0) : Type 0 where
  pub clock : ℕ → F
  pub latency : ℕ → F
  pub succeeds : ℕ → Bool
  pub draw : ℕ → ℕ

-- An agent on its way, with the numbers of what it has read, sent and drawn.
pub record Agent (F : Type 0) : Type 0 where
  pub readings : ℕ
  pub requests : ℕ
  pub bursts : ℕ
  pub results : List (RequestResult F)

module _ {F : Type 0} (ops : Floats F) (course : Course F) (workload_name : String)
    (end_time : F) where
  -- Whether the next reading of the clock is before the end.
  abbrev pub in_time : Agent F → Bool
  in_time a = ops.less (course.clock a.readings) end_time

  abbrev pub read_clock : Agent F → Agent F
  read_clock a = record a { readings = a.readings + 1 }

  -- One request, and `results.add` of its result.
  unfoldable pub send : Agent F → Agent F
  send a = record a {
    requests = a.requests + 1;
    results =
        a.results
        ++ record {
          workload = workload_name;
          latency = course.latency a.requests;
          succeeded = course.succeeds a.requests;
          status = if course.succeeds a.requests then 200 else 0;
        }
          ∷ [];
  }

  -- The loop over `range(burst_size)`.
  unfoldable pub burst : ℕ → Agent F → Agent F
  unfolding send
  burst zero a = a
  burst (suc n) a =
      let rest = burst n (send (read_clock a)) in if in_time a then rest else read_clock a

  -- The outer loop, with fuel: `none` where it does not end within it.
  unfoldable pub rounds : WorkloadProfile F → ℕ → Agent F → Option (Agent F)
  unfolding burst
  rounds profile zero a = none
  rounds profile (suc fuel) a =
      let size = randint profile.requests_per_burst (course.draw a.bursts) in
      let next = burst size (record (read_clock a) { bursts = a.bursts + 1 }) in
      let rest = rounds profile fuel next in if in_time a then rest else some (read_clock a)

  abbrev pub new_agent : Agent F
  new_agent = record { readings = 0; requests = 0; bursts = 0; results = [] }

  unfoldable pub run_agent : ℕ → Result (Option (Agent F))
  unfolding profiles rounds
  run_agent fuel = do
    profile ← or_key_error (Dict.get (profiles ops) workload_name)
    ok (rounds profile fuel new_agent)
