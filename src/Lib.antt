-- ===== src/Lib.antt =====
-- Models and proofs for Buttercup, a cyber reasoning system: it finds vulnerabilities in a target by
-- fuzzing, generates patches for them, and submits both to a competition server.
--
-- The subject is the part of the orchestrator that decides what is submitted, and the state on the
-- Redis server through which the services meet. The task server receives tasks
-- (orchestrator/src/buttercup/orchestrator/task_server/backend.py) and pushes them on queues
-- (common/src/buttercup/common/queues.py). The scheduler cancels tasks
-- (orchestrator/src/buttercup/orchestrator/scheduler/cancellation.py), all services ask the registry
-- (common/src/buttercup/common/task_registry.py) which tasks go on, and tests of POVs against patches
-- are asked for and answered by sets (common/src/buttercup/common/sets.py). Submissions are made in
-- orchestrator/src/buttercup/orchestrator/scheduler/submissions.py, with the messages of
-- common/protos/msg.proto: the scheduler calls it when a fuzzer reports a crash
-- (`submit_vulnerability`), when the patcher answers (`record_patch`), when a patched build is done
-- (`record_patched_build`), and else once per cycle (`process_cycle`). The main loop of the scheduler
-- (orchestrator/src/buttercup/orchestrator/scheduler/scheduler.py) serves the queues, keeps the maps of
-- builds and of weights (common/src/buttercup/common/maps.py) and calls the rest; the bots choose their
-- work from these maps (common/src/buttercup/common/default_task_loop.py), and the reproducer runs POVs
-- against patches (orchestrator/src/buttercup/orchestrator/pov_reproducer/pov_reproducer.py).
--
-- Parts and files:
--   Message.antt: the protobuf messages, one record or data type each, with the fields the code reads.
--   Outcome.antt: calls that may raise. A raise keeps what was written before it.
--   CompetitionApi.antt: the class `CompetitionAPI`, one function per method, on top of
--   CompetitionApi/Client.antt, the generated HTTP client and the server as a parameter.
--   Redis.antt: the sets and hashes of the server, the encoding of keys and of messages, as parameters
--   with laws. Streams.antt: its streams with consumer groups, as a parameter with laws.
--   PovStatus.antt: `PoVReproduceStatus`, with the cache of the process beside the server. `Spec` below
--   it says what it promises, `Refines` proves it; `Race` puts marks of others between its commands.
--   TaskRegistry.antt: `TaskRegistry`. Queues.antt: `ReliableQueue`; `Pop` is about one call,
--   `Delivery` about calls of many consumers, and `Factory` has `QueueFactory`. `pop` calls itself at most once, so fuel 2 is enough.
--   StatusChecker.antt: orchestrator/src/buttercup/orchestrator/scheduler/status_checker.py.
--   Cancellation.antt: `Cancellation`; `Marks` is about the tasks, `Frame` about what stays, `Requests` about
--   the queue. Backend.antt: the task server.
--   SarifStore.antt: common/src/buttercup/common/sarif_store.py.
--   Maps.antt: `RedisMap`, `BuildMap`, `HarnessWeights` and `CoverageMap`; `Builds` and `Weights` below it
--   are about what is found in them.
--   Scheduler/Weights.antt: `update_expired_task_weights`. Scheduler/Builds.antt: `process_ready_task` and
--   `process_build_output`, with the files of a task as the parameter `Files`. Scheduler/Serve.antt: the
--   steps of `serve_item`, each an action on the fields of `Scheduler` and the server; `Good`, `Puts`,
--   `Steps`, `Calls`, `Settles` and `Whole` below it lead to the whole loop. Its `Service` is what the scheduler
--   calls of its submissions, and Scheduler/Service.antt fills it with the model of `Submissions`.
--   SarifMatcher.antt: orchestrator/src/buttercup/orchestrator/scheduler/sarif_matcher.py. `Fits` says when a
--   frame and an entry of a report belong together, `Listed` and `Frames` which of them are compared.
--   TaskLoop.antt: `TaskLoop`; `Stopped` puts it behind the scheduler. PovReproducer.antt: `POVReproducer`.
--   Submissions/Entry.antt: the functions on one `SubmissionEntry` (`_task_id`, `_current_patch`, …).
--   Submissions/Env.antt: the parameter that stands for everything else the class reaches: Redis, the
--   task registry, the POV reproduction status, the crash comparison, the SARIF matcher.
--   Submissions/State.antt: the fields of `Submissions` and the enumerations of entries. `State` has
--   the entries in memory, the calls buffered on the open Redis pipeline, the server and the local
--   state. `start` is `__post_init__`. A method on the entry `i` names it by index and writes it
--   back, since the loops of the source hold references into `self.entries`.
--   Submissions/Pov.antt: `_submit_pov_if_needed` and `_update_pov_status`.
--   Submissions/Patch.antt: the order of the patches, their tests against the POVs, and what an entry
--   waits for; `Tested` says which POVs are run and how their answers read. Submissions/PatchFlow.antt: requests to the patcher and to the builder, and the
--   submission of a patch. Submissions/PatchStatus.antt: `_update_patch_status`.
--   Submissions/Bundles.antt: bundles and SARIF reports.
--   Submissions/Records.antt: the entry points other than the cycle, and consolidation.
--   Submissions/Cycle.antt: `process_cycle` and `_merge_entries_by_patch_mitigation`. A step is a
--   function on the state that may raise; the pipeline is executed behind the last step, or dropped.
--   Submissions/Counted.antt: the number of entries in Redis and in memory over calls and cycles.
--   Submissions/Evolves.antt and the child modules hold the proofs, each named for what it shows.
--   Prelude.antt: lists on the native numbers, Boolean tests and rules for branching terms.
--   Tests.antt and its child modules: small servers, with the laws that the parameters ask for, and
--   examples on them.
--
-- The parameters `ApiClient` and `Env` are records of operations. What the proofs on submissions rely
-- on are the laws of Redis in `Env`: LSET, RPUSH and LRANGE on the list `submissions`, and that the
-- other calls leave that list alone. Tests/Demo.antt has an instance of both. The other components use
-- the parameters `Redis`, `Streams`, `RedisLists`, `Json` and `Codec`, whose laws are in their records;
-- Tests/MemoryRedis.antt, Tests/MemoryStreams.antt and Tests/MemoryLists.antt have instances. `Apart` says that commands on
-- sets, hashes and streams do not disturb each other. `Env` has the registry and the
-- POV reproduction status as operations of its own. Python's `str.lower` is a function, and a theorem
-- that needs more of it says so. Where the code reads the clock, the time is an argument, the same
-- during one call. Loops are structural on a list or on the number of entries.
--
-- Outside the model: log lines, telemetry and `log_entry`, but that telemetry may raise for a task that the
-- registry has lost is a parameter of the client; that Redis gives members of a set as bytes; which exception was raised, since every
-- handler catches `Exception`; an entry without crashes, which the code never makes; failures of the
-- Redis server. Corpora, locks, the challenge tasks on disk and what the bots run are not modelled: the
-- bots, the patcher and the seed generator run external programs and language models. The weight of a
-- harness is a whole number, since the code only compares it with 0 and sets 1.0 and -1.0; what a random
-- choice takes is an argument. The messages that the submissions push, and the entries that they store,
-- are in their own state and not in the store of the scheduler.
pub mod Prelude
pub mod Message
pub mod Outcome
pub mod CompetitionApi
pub mod Redis
pub mod PovStatus
pub mod Maps
pub mod TaskRegistry
pub mod Streams
pub mod Queues
pub mod StatusChecker
pub mod Cancellation
pub mod Backend
pub mod SarifStore
pub mod Submissions
pub mod Scheduler
pub mod TaskLoop
pub mod SarifMatcher
pub mod PovReproducer
pub mod Tests
