-- ===== src/Lib.antt =====
-- Fleet, a gateway that routes LLM requests to Ollama workers and keeps the context of agent
-- workflows. A request comes in at a route of the gateway, which measures the workflow's context,
-- asks the load balancer for a worker, records the request in the context store, awaits the worker,
-- and tells the load balancer's circuit breakers how it went. When a workflow has grown over its
-- budget, a background task replaces its oldest turns by a summary. The autoscaler adds and removes
-- workers of the load balancer. A queued request becomes an entry of a Redis stream, which the worker
-- pool takes, runs, stores the result of and acknowledges; a recovery loop takes over entries that
-- were not acknowledged, and buries those that failed too often. Machines register themselves as
-- workers through their agent, in a registry in Redis. Memories of agents are rows of PostgreSQL.
--
-- Where each part is, by its path in the repository:
--   context/models.py, context/store.py: Context/Models, Context/Store. The two dictionaries of the
--     store are kept as they are; Store/Refinement relates them to one list of items.
--   context/selection.py: Context/Selection. The packing loop is Common/Packing.
--   context/compression.py, context/manager.py: Context/Compression, Context/Manager;
--     `llm_summarizer` is in Gateway/Compression.
--   context/artifacts.py, and the manager's methods on artifacts: Context/Artifacts.
--   workers/ollama_client.py: Workers/Client and Workers/Client/Requests.
--   router/circuit_breaker.py: Router/Breaker. Breaker/Trace tells the breaker by its history.
--   router/load_balancer.py: Router/Balancer. Balancer/Eligible says which workers may be picked,
--     without the state that the code changes while it looks for them.
--     Balancer/Health has the health checks and the statistics.
--   router/autoscaler.py: Router/Autoscaler, for the mode without Docker; Router/Docker, for the one
--     with it.
--   workers/worker_pool.py: Workers/Pool, one job from its dispatch to its result; Pool/Results, the
--     results in Redis; Pool/Loops, a round of each of the two loops.
--   job_queue/streams.py, job_queue/dead_letter.py: JobQueue/Fields and JobQueue/Stream;
--     job_queue/retry.py: JobQueue/Retry.
--   registry/models.py, registry/store.py: Registry.
--   memory/models.py, memory/ranking.py, memory/retrieval.py: Memory; memory/store.py: Memory/Store,
--     over Memory/Table; memory/manager.py: Memory/Manager.
--   gateway/routes.py: Gateway and Gateway/Routes, for the routes /generate and /chat. What a request
--     does up to its worker is `admit`, what follows is `settle`. Gateway/Queued has the queued
--     requests, Gateway/RegistryRoutes the routes of the registry, Gateway/Compression the background
--     task, Gateway/Reports the routes /health and /workers.
--     gateway/middleware.py: Gateway/Middleware. config/settings.py: Configuration.
--   router/health_checker.py: Router/HealthChecker, one round.
--   scripts/worker_agent.py: Agent. client/fleet_client.py: FleetClient.
--   scripts/simulate.py: Simulate. scripts/benchmark.py and the experiments in
--     benchmarks/experiments: Experiments.
--   examples/coding_agent: CodingAgent, over a file system with directories and links.
-- InFlight puts the halves of all requests, jobs and summaries together with what else changes the
-- workers: its Step is one step of one task, its Reach what can come of any steps in any order.
-- Common has what they share: dictionaries (Dict), exceptions (Common/Raises), methods that change an
-- object and may raise (Common/Actions), sorting (Common/Sort), packing, line ends
-- (Common/Newlines). A function has the name of its Python method; a method that changes its object
-- takes the object and returns it.
--
-- Redis, PostgreSQL, Docker and JSON are parameters: records of commands over an unknown state, and records of
-- the laws that the code relies on (Redis, Redis/Streams, Redis/Results, Memory/Table). Redis/Memory,
-- Redis/Streams/Memory, Redis/Codec and Memory/Table have instances that meet the laws.
--
-- Conventions. Floats are a type with the operations of Common/Floats, and where an order is
-- needed, with the laws of IsOrder, which hold where no NaN is. Clocks that are compared with
-- timeouts give whole ticks, one reading in each call. Token budgets and counts of items to keep
-- are not negative. Ids of new items are arguments, fresh where a theorem says so, as uuid4 makes
-- them. An exception keeps its class, not its message. A coroutine is cut at its await of a worker:
-- what came back is an argument, and what other tasks did meanwhile is a function `during` or a
-- second half that starts from any state; for health checks, which are awaited together, it is an
-- Awaited of Router/Balancer/Health. Commands to Redis and PostgreSQL run with no other between
-- those of one call, but for the polls of get_result, between which other clients do what `wait`
-- says; of those to Redis only SETEX is taken to fail. An endless loop is modelled by one round.
-- All loops are structural recursion, but for two, which run on fuel: for the one of XAUTOCLAIM,
-- more than the pending entries of the queue is enough, and for the rounds of an agent of the
-- simulator, more than the readings of the clock before its end.
--
-- Not modelled: HTTP itself, prints and their layout, Prometheus metrics but those of the
-- middleware, the worker client and the automatic compression, wiring (gateway/main.py, connecting
-- and closing), timers and tasks, the detection of hardware, search_code of the coding agent, and
-- the other scripts and experiments: calls of libraries and tools around HTTP calls.
pub mod Common
pub mod Dict
pub mod Redis
pub mod JobQueue
pub mod Registry
pub mod Samples
pub mod Context
pub mod Workers
pub mod Router
pub mod Gateway
pub mod InFlight
pub mod Memory
pub mod Agent
pub mod FleetClient
pub mod Simulate
pub mod CodingAgent
pub mod Configuration
pub mod Experiments
