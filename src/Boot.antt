-- ===== src/Boot.antt =====
-- How the program begins: `run` of cmd/snake-runner/main.go up to its `select`, with `Start` of
-- snake.go. The client has a pointer to the configuration, so that it sends the token that the
-- registration has put there. The messages, the levels of the log and the audit are left out.
pub mod Serving
use snake_runner.Base.{Text, List, Option, none, some}
use snake_runner.Errors.{Error, format}
use snake_runner.Runner.{Config, Result, configured, not_configured, fails, load_config}
use snake_runner.Runner
use snake_runner.Start.{Start, FileSystem, Answer, goes_on, dies, waits}
use snake_runner.Start
use snake_runner.Docker.Containers.{ContainerEngine, Containers}
use snake_runner.Probe.{start_scheduler}
use snake_runner.Probe

pub record World : Type 0 where
  -- what `LoadConfig` reads
  pub settings : Runner.Host
  -- the file of the token, the file system that it is in, and the master's answers
  pub file : Option Text
  pub files : FileSystem
  pub answers : List Answer
  -- what the executor is probed on, and the containers that are left of a run before
  pub host : Probe.Host
  pub engine : ContainerEngine
  pub containers : Containers

-- Where `run` has got to: the end of the process with the message or with an error, the loop of the
-- registration, a panic, or the `select`, with the heartbeats and the scheduler started.
pub data Boot : Type 0 where
  unconfigured : Boot
  fatal : Error → Boot
  registering : Boot
  panics : Boot
  serves : Config → Containers → Boot

abbrev scheduled : Config → Option (Containers × Option Error) → Boot
scheduled config none = panics
scheduled config (some (left, some error)) = fatal error
scheduled config (some (left, none)) = serves config left

-- The end of `Start`.
unfoldable pub launch : World → Config → Boot
launch world config =
    scheduled config (start_scheduler world.host config world.engine world.containers)

abbrev started : World → Config → Start → Boot
started world config (dies error) = fatal error
started world config waits = registering
started world config (goes_on runner) =
    launch world (record config { access_token = runner.access_token })

-- `Start`
unfoldable pub start_runner : World → Config → Boot
unfolding launch
start_runner world config = started world config (
    Start.start world.files world.answers
      (record { file = world.file; access_token = config.access_token; requests = 0 }))

abbrev with_result : World → Result → Boot
with_result world (configured config) = start_runner world config
with_result world (not_configured config) = unconfigured
with_result world (fails error) = fatal error

-- `run`
unfoldable pub boot : World → Boot
unfolding start_runner
boot world = with_result world (load_config world.settings world.settings.loaded)
