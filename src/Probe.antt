-- ===== src/Probe.antt =====
-- The choice of the executor and the start of the scheduler: probe.go, docker_probe.go,
-- shell_probe.go and `startScheduler` of scheduler.go, all of cmd/snake-runner. `Host` says what the
-- Docker client, the search for executables and the trial of the ssh-agent return.
pub mod Startup
use snake_runner.Base.{
  ℕ, ℤ, nat_beq, Text, text_eq, codes, List, [], Option, none, some, Bool, true, false, ◌==◌,
  if◌then◌else◌,
}
use snake_runner.Errors.{Error, message, format}
use snake_runner.Runner.{Config, docker_mode, shell_mode}
use snake_runner.Docker.Containers.{Docker, ContainerEngine, Containers, clean_up}
use snake_runner.Sidecar.Shell.{check_prerequisites}
use snake_runner.Sshkey.{new_factory}

-- How the trial of the ssh-agent ends: with no error, with an exit status, with an exit of which the
-- system tells no status, or with another error.
pub data Trial : Type 0 where
  ends_well : Trial
  exits : ℕ → Trial
  exits_untold : Trial
  breaks : Error → Trial

pub record Host : Type 0 where
  pub windows : Bool
  -- the errors of `NewClientWithOpts` and of `Info`
  pub new_client : Option Error
  pub info : Option Error
  pub look_path : Text → Option Error
  pub ssh_agent : Trial

pub data Executor : Type 0 where
  docker : Docker → Executor
  shell : Executor

pub data Probed : Type 0 where
  found : Executor → Probed
  refused : Error → Probed

-- `Connect`
unfoldable pub connect : Host → Option Error
connect host = elim host.new_client [ some error ↦ some error | none ↦ host.info ]

-- `Probe` of a `DockerProbe`
unfoldable pub probe_docker : Host → Docker → Probed
unfolding connect
probe_docker host d = elim (connect host) [
  | none ↦ found (docker d)
  | some error ↦
      if host.windows
      then refused
          (format error (codes "Unable to connect to Docker Engine; consider the shell executor"))
      else refused (format error (codes "Unable to connect to Docker Engine"))
]

-- Whether the agent is taken for OpenSSH's, or the error.
pub data Agent : Type 0 where
  openssh : Bool → Agent
  unknown : Error → Agent

unfoldable pub agent_of : Trial → Agent
agent_of ends_well = openssh true
agent_of (exits status) = openssh (if nat_beq status 100 then false else true)
agent_of exits_untold = openssh false
agent_of (breaks error) = unknown (format error (codes "ssh-agent version validation failed"))

abbrev pub judge : Agent → Probed
judge (unknown error) = refused error
judge (openssh true) = refused (message (codes "The ssh-agent's version is not supported"))
judge (openssh false) = found shell

-- `Probe` of a `ShellProbe`. The shell's `DetectShell` and `Create` return no error.
unfoldable pub probe_shell : Host → Probed
unfolding check_prerequisites agent_of
probe_shell host = elim (check_prerequisites host.look_path) [
  | some error ↦ refused (format error (codes "Prerequisites check failed"))
  | none ↦ if host.windows then judge (agent_of host.ssh_agent) else found shell
]

-- `Probe` of the factory
unfoldable pub probe : Host → Config → Probed
unfolding probe_docker probe_shell
probe host config =
    if config.mode == docker_mode
    then probe_docker host
        (record { network = config.docker_network; volumes = config.docker_volumes })
    else if config.mode == shell_mode
    then probe_shell host
    else refused (message (codes "unexpected runner mode"))

-- `Cleanup` of the executor; the shell's does nothing.
unfoldable pub clean : Executor → ContainerEngine → Containers → Containers × Option Error
unfolding clean_up
clean (docker d) engine containers =
    let (left, counted) = clean_up engine containers in (left, counted.1)
clean shell engine containers = (containers, none)

abbrev wrap : Containers × Option Error → Containers × Option Error
wrap (containers, none) = (containers, none)
wrap (containers, some error) =
    (containers, some (format error (codes "unable to cleanup old resources")))

-- What `startScheduler` does with the outcome of the probe, on a factory that could be made.
unfoldable pub start_clean : Probed → ContainerEngine → Containers → Containers × Option Error
unfolding clean
start_clean (refused error) engine containers = (containers, some error)
start_clean (found executor) engine containers = wrap (clean executor engine containers)

unfoldable pub start_with :
    ℤ → Probed → ContainerEngine → Containers → Option (Containers × Option Error)
unfolding start_clean
start_with queue_size (refused error) engine containers =
    some (start_clean (refused error) engine containers)
start_with queue_size (found executor) engine containers = elim (new_factory queue_size) [
  | none ↦ none
  | some factory ↦ some (start_clean (found executor) engine containers)
]

-- `startScheduler`: the containers on the engine, and the error; `none` where making the factory of
-- the keys panics.
unfoldable pub start_scheduler :
    Host → Config → ContainerEngine → Containers → Option (Containers × Option Error)
unfolding probe start_with
start_scheduler host config engine containers =
    start_with config.max_parallel_pipelines (probe host config) engine containers
