-- ===== src/Lib.antt =====
-- snake-runner: the runner of CI pipelines, as a library of definitions and theorems.
--
-- The runner registers at a master, asks it for tasks, runs each pipeline in a goroutine, its jobs
-- stage by stage in containers, and sends statuses and masked logs back. The files model its parts
-- in Go, in the order of a run:
--
-- - Runner (internal/runner/config.go): LoadConfig. Start (cmd/snake-runner/snake.go, register.go,
--   heartbeat.go): the registration with the file of the token, and the heartbeats. Probe
--   (cmd/snake-runner/probe.go, docker_probe.go, shell_probe.go, startScheduler of scheduler.go): the
--   choice of the executor. Boot (run of cmd/snake-runner/main.go) puts them together.
-- - Api (internal/api/request.go): Do and getURL. Api/Calls (internal/api/client.go): the request of
--   each method of the client, which Api/Targets reads back. Client: UpdatePipeline and UpdateJob as
--   the calls that the other parts log. Tasks (internal/tasks): the answers to GetTask.
-- - Sshkey (internal/sshkey): the factory that generates keys ahead of the pipelines.
-- - Scheduler (cmd/snake-runner/scheduler.go): the loop that asks for tasks, the goroutines of the
--   pipelines with their deferred calls, and the shutdown, as steps of one state, in which the loop
--   has a phase for each of its waits. Scheduler.antt has the operations, Scheduler/Steps the step
--   relation; Counter, KeySets, Keys and Cancels prove.
-- - Pipeline (internal/pipeline/pipeline.go): Split is splitJobs, Fail is fail, Jobs is runJob and
--   processJob of the jobs of one stage as interleaved steps, Jobs/Result is the loop of runJobs over
--   the stages, Run is Run with prepareVariables, Building is buildSidecar, and Reading is readConfig
--   through a sidecar.
-- - Sidecar (internal/sidecar): Cloud is the sidecar in a container, Shell the one on the host, and
--   Agent the ssh-agent that both start, as interleaved steps.
-- - Job (internal/job/process.go): the run of one job with its container and commands; the image, the
--   shell and the Docker credentials. Job/OnDocker puts it over the executor of Docker, and Job/Logs
--   has the text that it logs.
-- - Docker (internal/executor/docker): Images, Pulls, Containers and Execs, and Auths with the
--   credentials, which Base64 encodes. Local (internal/executor/shell): the commands of the local
--   executor and its Destroy as interleaved steps.
-- - Env (internal/env/env.go): the variables of a job; Env/Expand is Go's os.Expand.
-- - Config (internal/config/config.go) and MapSlice (internal/mapslice/mapslice.go): the file of a
--   pipeline and its ordered variables.
-- - Masker (internal/masker/masker.go) and Bufferer (internal/bufferer/bufferer.go): the logs.
-- - SafeMap (internal/safemap) and Set (internal/set), of which the template is modelled and not
--   each generated type; Signal (internal/signal/condition.go), Syncdo (internal/syncdo), Status
--   (internal/status), Snake (internal/snake), Errors (IsCanceled of internal/utils/utils.go): what
--   the parts share.
-- - Base passes on the library's names and has what the parts share: Go's strings as lists of bytes,
--   maps as association lists, Boolean tests, paths, integers and their decimal print.
-- - Tests has the theorems at concrete inputs.
--
-- How state is modelled. Sequential code is a function from state to state; where goroutines
-- interleave, a data type Step has a constructor for each stretch of code that runs undisturbed (under
-- a lock, or between two calls that wait), and Reach is the states that some order of steps reaches. A
-- Go map is an association list with one entry for a key. The calls to the master are a log, oldest
-- first, and the master is a function of that log, so that it may refuse any call at any time. The
-- master's tasks and the generated keys are relations, on which a theorem may put a condition. What a
-- call to a library or to the operating system returns stands in a record of the component
-- (Transport, Host, ImageEngine, ContainerEngine, ExecEngine, PullEngine, FileSystem), any of whose
-- fields may be an error. An operation that can panic returns an Option or a Boolean that says so.
--
-- Bounds. The loops are structural recursion. The decimal print takes one round more than the number,
-- which is at least its digits. Go's int is an unbounded integer: identifiers are only compared and
-- printed, and the counter of pipelines counts goroutines.
--
-- Outside, and taken as parameters: the YAML and JSON decoders and encoders, the loader of the
-- configuration's file, the HTTP client, the Docker client with its parser of references, the local
-- processes, the cryptography of the keys, the random strings, the line writer of the logs, the
-- master, the shell quoting, the environment of the runner, the clock, and sort.Slice, which may
-- leave strings of one length in any order. Not modelled: the command line and the service managers
-- (main of main.go, service.go, actions.go), the texts for the terminal, the audit of goroutines,
-- the tracing of the runner to its own log, and constructors that are generated and only set
-- fields.
pub mod Base
pub mod Errors
pub mod Status
pub mod Snake
pub mod Client
pub mod Api
pub mod Signal
pub mod Pipeline
pub mod MapSlice
pub mod SafeMap
pub mod Set
pub mod Sshkey
pub mod Scheduler
pub mod Masker
pub mod Bufferer
pub mod Config
pub mod Job
pub mod Env
pub mod Syncdo
pub mod Base64
pub mod Sidecar
pub mod Docker
pub mod Start
pub mod Probe
pub mod Boot
pub mod Tasks
pub mod Runner
pub mod Local
mod Tests
