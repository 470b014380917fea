-- ===== src/Probe/Startup.antt =====
-- When the scheduler starts, and which containers are left then.
use snake_runner.Base.{
  ℕ, pos, nat_beq_iff, text_eq, text_beq_iff, Option, Option-cases, none, some, Bool-cases, true,
  false, not, keep, ◌≡◌, refl, ◌∙◌, ◌⊎◌, ◌↔◌, inl, inr, arith,
}
use snake_runner.Errors.{Error}
use snake_runner.Runner.{Config, docker_mode, shell_mode}
use snake_runner.Runner.Valid.{IsValid}
use snake_runner.Docker.Containers.{ContainerEngine, Containers, runs, clean_up}
use snake_runner.Docker.Containers.Cleanup.{is_gone, clean_up_lem}
use snake_runner.Sidecar.Shell.{check_prerequisites}
use snake_runner.Sshkey.{new_factory}
use snake_runner.Probe.{
  Trial, ends_well, exits, exits_untold, breaks, Host, Probed, found, refused, connect,
  probe_docker, judge, Agent, openssh, unknown, agent_of, probe_shell, probe, clean, start_clean,
  start_with, start_scheduler,
}

-- The agent of Git for Windows, which ends with the status of the command; or no status is told.
abbrev pub Supported : Trial → Type 0
Supported trial = (trial ≡ exits 100) ⊎ (trial ≡ exits_untold)

-- What the mode needs of the host.
abbrev pub DockerReady : Host → ContainerEngine → Type 0
DockerReady host engine = (host.new_client ≡ none) × (host.info ≡ none) × (engine.list ≡ none)

abbrev pub ShellReady : Host → Type 0
ShellReady host =
    (check_prerequisites host.look_path ≡ none)
    × ((host.windows ≡ false) ⊎ Supported host.ssh_agent)

docker_starts :
    (host : Host) (config : Config) (engine : ContainerEngine) (containers : Containers)
    → config.mode ≡ docker_mode
    → ((start_clean (probe host config) engine containers).1 ≡ none) ↔ DockerReady host engine
unfolding probe start_clean probe_docker connect clean clean_up
docker_starts host config engine containers m = ground (arith, text_beq_iff config.mode docker_mode)

agent_of-Supported : (trial : Trial) → (agent_of trial ≡ openssh false) ↔ Supported trial
unfolding agent_of
agent_of-Supported ends_well = ground arith
agent_of-Supported (exits status) = ground (arith, nat_beq_iff status 100)
agent_of-Supported exits_untold = ground arith
agent_of-Supported (breaks error) = ground arith

-- The error of the start with a shell that was probed.
judged :
    (agent : Agent) (engine : ContainerEngine) (containers : Containers)
    → ((start_clean (judge agent) engine containers).1 ≡ none) ↔ (agent ≡ openssh false)
unfolding start_clean clean
judged (unknown error) engine containers = ground arith
judged (openssh true) engine containers = ground arith
judged (openssh false) engine containers = ground arith

probe_shell_starts :
    (host : Host) (engine : ContainerEngine) (containers : Containers)
    → ((start_clean (probe_shell host) engine containers).1 ≡ none) ↔ ShellReady host
unfolding probe_shell start_clean clean
probe_shell_starts host engine containers =
    elim (Option-cases (check_prerequisites host.look_path)) [
      | inr (error, e) ↦ rw (e, probe_shell) (ground arith)
      | inl e ↦ elim (Bool-cases host.windows) [
        | inr w ↦ rw (e, w, probe_shell) (ground arith)
        | inl w ↦
            rw (e, w, probe_shell)
              (ground (
                arith,
                judged (agent_of host.ssh_agent) engine containers,
                agent_of-Supported host.ssh_agent,
              ))
      ]
    ]

shell_starts :
    (host : Host) (config : Config) (engine : ContainerEngine) (containers : Containers)
    → config.mode ≡ shell_mode
    → ((start_clean (probe host config) engine containers).1 ≡ none) ↔ ShellReady host
unfolding probe
shell_starts host config engine containers m = rw m (probe_shell_starts host engine containers)

shell_left :
    (host : Host) (config : Config) (engine : ContainerEngine) (containers : Containers)
    → config.mode ≡ shell_mode
    → (start_clean (probe host config) engine containers).0 ≡ containers
unfolding probe start_clean probe_shell clean agent_of
shell_left host config engine containers m = rw m (ground arith)

docker_left :
    (host : Host) (config : Config) (engine : ContainerEngine) (containers : Containers)
    → config.mode ≡ docker_mode
    → DockerReady host engine
    → (start_clean (probe host config) engine containers).0 ≡ (clean_up engine containers).0
unfolding probe start_clean probe_docker connect clean clean_up
docker_left host config engine containers m ready = rw m (rw (ready.0, ready.1, ready.2) refl)

start_with_pos :
    (size : ℕ) (probed : Probed) (engine : ContainerEngine) (containers : Containers)
    → start_with (pos size) probed engine containers ≡ some (start_clean probed engine containers)
unfolding start_with new_factory
start_with_pos size (refused error) engine containers = refl
start_with_pos size (found executor) engine containers = refl

start_scheduler_pos :
    (host : Host) (config : Config) (size : ℕ) (engine : ContainerEngine) (containers : Containers)
    → config.max_parallel_pipelines ≡ pos size
    → start_scheduler host config engine containers
      ≡ some (start_clean (probe host config) engine containers)
unfolding start_scheduler
start_scheduler_pos host config size engine containers e =
    rw e (start_with_pos size (probe host config) engine containers)

-- The scheduler of a configuration that `LoadConfig` has returned, and whose number of pipelines is
-- not negative, does not panic, and starts in one of two modes. With Docker it starts if and only
-- if the client connects and lists the containers, whatever the removals return, and then it has
-- removed exactly those that have the identifier of a running container of ours whose removal
-- succeeds. With the shell it starts if and only if the executables are there and, on Windows, the
-- ssh-agent is a supported one, and it leaves the containers alone.
pub configured_starts :
    (host : Host) (config : Config) (size : ℕ) (engine : ContainerEngine) (containers : Containers)
    → IsValid config
    → config.max_parallel_pipelines ≡ pos size
    → (left : Containers) × (error : Option Error) × (start_scheduler host config engine containers
        ≡ some (left, error))
      × (((config.mode ≡ docker_mode)
            × ((error ≡ none) ↔ DockerReady host engine)
            × (error ≡ none
                → left ≡ keep (λ c. not (is_gone engine (keep runs containers) c)) containers))
          ⊎ ((config.mode ≡ shell_mode) × ((error ≡ none) ↔ ShellReady host) × (left ≡ containers)))
configured_starts host config size engine containers valid e =
    let (left, error) = start_clean (probe host config) engine containers in
    (
      left,
      error,
      start_scheduler_pos host config size engine containers e,
      elim valid.known_mode [
        | inl m ↦
            let starts = docker_starts host config engine containers m in
            inl (
              m,
              starts,
              λ h.
                  docker_left host config engine containers m (starts.0 h)
                  ∙ clean_up_lem engine containers ((starts.0 h).2),
            )
        | inr m ↦ inr (
          m,
          shell_starts host config engine containers m,
          shell_left host config engine containers m,
        )
      ],
    )
