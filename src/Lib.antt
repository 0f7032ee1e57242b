-- ===== src/Lib.antt =====
-- The Gigaevo platform runs evolutionary experiments: a master (master_api) keeps evolutions and
-- hands out work, runners (runner_api) take tasks from a queue in Redis, execute them and run agent
-- skills in a sandbox with a network gate. This library models the parts that decide what happens
-- to a task, an evolution or a connection, and proves what they promise.
--
-- Tasks. A task is a hash in Redis (runner_api/src/models/task.py: Task), its id waits in a list,
-- and the repository (runner_api/src/services/task_repository.py: TaskRepository) reads and writes
-- both. Redis is an interface of commands with their documented laws (Redis), filled by a store in
-- memory (Redis.Memory); JSON, times, UUIDs and the lower case of texts are an interface with their
-- round trips (Formats), filled by a plain one (Formats.Plain). The worker
-- (runner_api/src/workers/task_worker.py: TaskWorker, TaskWorker.Handlers, TaskWorker.Polling)
-- polls the queue and executes one task at a time. Other clients may change the store at five places
-- of an execution, before and after the write of RUNNING, while the handler runs, and before and
-- after the last write of the task; what they do there is an argument, and so is what the services
-- answer. The other awaits of an execution follow each other with nothing in between. Each
-- transaction is one step.
--
-- The network gate. The domains that a skill asks for (runner_api/src/sandbox/network_policy.py:
-- Egress.Domains), the allowlist, the request line and the proxy
-- (runner_api/src/sandbox/egress_proxy.py: Egress.AllowList, Egress.Connect, Egress.Proxy). Text is
-- a list of code points. The bytes that arrive, or the error that comes
-- instead, and what becomes of a call to an upstream, are given; an exception that _handle does not
-- catch ends the connection without an answer.
--
-- Evolutions. The event bus (master_api/src/services/evolution_event_bus.py: EventBus) and the
-- service over it (master_api/src/services/evolution_service.py: Evolution, Evolution.Individuals,
-- Evolution.Accept, Evolution.Pareto, Evolution.Listing), with the object store's answers and
-- Memory as arguments. A score is a value of an interface with the order of floats.
--
-- Runners. The master gives experiments to runners from a pool in PostgreSQL. Experiments and Runners
-- have the rows of the two tables (master_api/src/models/database.py), and Runners.Allocate and
-- Runners.Release the transactions on them (master_api/src/services/database_service.py); a list is
-- the order in which the database returns rows, and the rows that other transactions have locked are
-- an argument. Runners.Health and Runners.Reconcile have the checks of health and the reconciler
-- (master_api/src/services/runner_instance_service.py), with what the runners answer as arguments,
-- and Runners.Calls has sequences of all of these. Each transaction is one step. Dispatch has the
-- start of an experiment and a round of the scheduler
-- (master_api/src/services/experiment_service.py), with three attempts for a request, as in the code.
--
-- Skills. A request to the sandbox and its validation (runner_api/src/sandbox/protocol.py: Sandbox),
-- the arguments of docker run (runner_api/src/sandbox/docker_backend.py: Sandbox.Docker), and one
-- execution with its workspace (runner_api/src/services/skill_executor.py: Sandbox.Executor).
-- Sandbox.Reading reads such arguments as Docker documents them. The resolver with its cache by hash
-- (master_api/src/services/agent_skill_resolver.py: SkillManifest, Skills) has the web, SHA-256, UTF-8,
-- JSON and YAML as arguments.
--
-- The modules below each of these hold the proofs, named for what they prove; Samples has the
-- concrete inputs. All loops are by recursion on the lists that they walk, so no fuel is needed.
--
-- Not modelled: the listing of tasks, the reports that the worker reads, the metrics, the
-- comparison of chains, the subprocesses of the sandbox, the start of runner containers, a failure of
-- the database, which rolls a transaction back, and the wrappers around MinIO, Kafka, Docker and HTTP,
-- which only pass data on.
pub mod Prelude
pub mod Formats
pub mod Redis
pub mod Task
pub mod TaskRepository
pub mod TaskWorker
pub mod Egress
pub mod EventBus
pub mod Evolution
pub mod Experiments
pub mod Runners
pub mod Dispatch
pub mod Sandbox
pub mod SkillManifest
pub mod Skills
mod Samples
