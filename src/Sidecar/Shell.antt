-- ===== src/Sidecar/Shell.antt =====
-- internal/sidecar/shell_sidecar.go: the sidecar on the local host. The path of the temporary
-- directory comes from the operating system, and so does the environment.
pub mod Traces
use snake_runner.Base.{
  Text, codes, List, [], ◌∷◌, ◌++◌, join_path, Option, none, some, Bool, true, false, if◌then◌else◌,
}
use snake_runner.Errors.{Error, message, format, karma, Reasons, no_reasons, reason}
use snake_runner.Sidecar.{
  Host, Interface, Call, makes_temp_dir, makes_dir, creates, starts_agent, writes_file, prompts,
  execs, destroys, waits_agent, removes_dir, Exec, ServeOptions, join_known_hosts,
}

pub record Builder : Type 0 where
  pub name : Text
  pub pipelines_dir : Text
  pub slug : Text
  pub private_key : Text

-- What the sidecar runs on: Windows or not, `os.Environ()`, and the path that `TempDir` chooses.
pub record Place : Type 0 where
  pub windows : Bool
  pub environ : List Text
  pub temp_dir : Text

pub record Shell : Type 0 where
  pub base_dir : Text
  pub temp_dir : Text
  pub git_dir : Text
  pub ssh_socket : Text
  pub ssh_known_hosts : Text
  pub ssh_agent : Bool
  pub container : Bool
  pub calls : List Call

abbrev pub new_shell : Shell
new_shell = record {
  base_dir = [];
  temp_dir = [];
  git_dir = [];
  ssh_socket = [];
  ssh_known_hosts = [];
  ssh_agent = false;
  container = false;
  calls = [];
}

abbrev pub Ended : Type 0
Ended = Shell × Option Error

abbrev pub and_then : Ended → (Shell → Ended) → Ended
and_then (s, none) go = go s
and_then (s, some error) go = (s, some error)

-- What becomes of an error: it goes under a text, or stays as it is.
abbrev pub under : Text → Error → Error
under text error = format error text

abbrev wrap : (Error → Error) → Option Error → Option Error
wrap put none = none
wrap put (some error) = some (put error)

-- One command of the loop: whether there is a prompt, and the execution.
pub record ShellStep : Type 0 where
  pub prompt : Bool
  pub exec : Exec

unfoldable pub show_prompt : ShellStep → Shell → Shell
show_prompt step s =
    if step.prompt then record s { calls = s.calls ++ prompts step.exec.cmd ∷ [] } else s

module _ (host : Host) where
  -- One call, with the fields that are set on its success.
  unfoldable pub call : Shell → Call → (Error → Error) → (Shell → Shell) → Ended
  call s c put set =
      let error = wrap put (host s.calls c) in
      let made = record s { calls = s.calls ++ c ∷ [] } in
      (elim error [ none ↦ set made | some e ↦ made ], error)

  -- `startSshAgent`: the wait group is there whether it fails or not.
  unfoldable pub start_agent : Text → Shell → Ended
  unfolding call
  start_agent socket s =
      call (record s { ssh_agent = true }) (starts_agent socket)
        (under (codes "unable to start ssh-agent")) (λ s. record s { ssh_socket = socket })

  unfoldable pub run_step : ShellStep → Shell → Ended
  unfolding call show_prompt
  run_step step s =
      call (show_prompt step s) (execs step.exec) (under (codes "unable to setup repository"))
        (λ s. s)

  -- The loop over the commands.
  unfoldable pub run_steps : List ShellStep → Shell → Ended
  unfolding run_step
  run_steps [] s = (s, none)
  run_steps (step ∷ steps) s = and_then (run_step step s) (run_steps steps)

  module _ (place : Place) (b : Builder) where
    abbrev pub base : Text
    base = join_path (b.pipelines_dir ∷ b.name ∷ [])

    abbrev pub git : Text
    git = join_path (base ∷ codes "git" ∷ b.slug ∷ [])

    abbrev pub socket : Text
    socket = join_path (place.temp_dir ∷ codes "ssh-agent.sock" ∷ [])

    abbrev pub known_hosts : Text
    known_hosts = join_path (place.temp_dir ∷ codes "known_hosts" ∷ [])

    abbrev pub environment : List Text
    environment =
        place.environ
        ++ (codes "SSH_AUTH_SOCK=" ++ socket)
          ∷ (codes "GIT_SSH_COMMAND=ssh -oGlobalKnownHostsFile=" ++ known_hosts)
          ∷ []

    abbrev pub clone_args : List Text
    clone_args = if place.windows then codes "-c" ∷ codes "http.sslbackend=schannel" ∷ [] else []

    abbrev step_of : Bool → List Text → Option Text → ShellStep
    step_of prompt cmd stdin = record {
      prompt = prompt;
      exec = record { cmd = cmd; env = environment; stdin = stdin };
    }

    -- The commands, with the private key on the input of the first one only.
    abbrev pub steps : ServeOptions → List ShellStep
    steps opts =
        step_of false (codes "ssh-add" ∷ codes "-v" ∷ codes "-" ∷ []) (some b.private_key)
        ∷ step_of true
            ((codes "git" ∷ codes "clone" ∷ codes "--recursive" ∷ opts.clone_url ∷ git ∷ [])
              ++ clone_args)
            none
        ∷ step_of false
            (codes "git"
              ∷ codes "-C"
              ∷ git
              ∷ codes "config"
              ∷ codes "advice.detachedHead"
              ∷ codes "false"
              ∷ [])
            none
        ∷ step_of true (codes "git" ∷ codes "-C" ∷ git ∷ codes "checkout" ∷ opts.commit ∷ []) none
        ∷ []

    -- `Serve` from `startSshAgent` on.
    unfoldable pub prepare : ServeOptions → Shell → Ended
    unfolding start_agent call run_steps
    prepare opts s = and_then (start_agent socket s) (λ s.
        and_then
          (call (record s { ssh_known_hosts = known_hosts })
            (writes_file known_hosts (join_known_hosts opts.known_hosts))
            (under (codes "unable to save known hosts file")) (λ s. s))
          (run_steps (steps opts)))

    -- `Serve`; an error of `Create` is returned as it is.
    unfoldable pub serve : ServeOptions → Shell → Ended
    unfolding call prepare
    serve opts s =
        and_then
          (call (record s { base_dir = base; git_dir = git }) makes_temp_dir
            (under (codes "unable to obtain temporary directory"))
            (λ s. record s { temp_dir = place.temp_dir }))
          (λ s.
            and_then
              (call s (makes_dir git) (under (codes "unable to create directory for git")) (λ s. s))
              (λ s.
                and_then
                  (call s (creates (codes "snake-runner-sidecar-" ++ b.name) []) (λ e. e)
                    (λ s. record s { container = true }))
                  (prepare opts)))

  -- The parts of `Destroy`, whose errors are logged only.
  unfoldable pub destroy_container : Shell → Shell
  unfolding call
  destroy_container s = if s.container then (call s destroys (λ e. e) (λ s. s)).0 else s

  unfoldable pub wait_agent : Shell → Shell
  unfolding call
  wait_agent s = if s.ssh_agent then (call s waits_agent (λ e. e) (λ s. s)).0 else s

  -- `Destroy`
  unfoldable pub destroy : Shell → Shell
  unfolding call destroy_container wait_agent
  destroy s =
      let waited = wait_agent (destroy_container s) in
      (call waited (removes_dir waited.base_dir) (λ e. e) (λ s. s)).0

-- The executables that `CheckPrerequisites` looks for.
abbrev pub dependencies : List Text
dependencies = codes "ssh-add" ∷ codes "ssh-agent" ∷ codes "git" ∷ []

-- The loop over them: `karma.Push` puts the errors under the one that the first of them makes.
unfoldable pub missing : (Text → Option Error) → List Text → Reasons
missing look_path [] = no_reasons
missing look_path (dependency ∷ rest) =
    let others = missing look_path rest in
    elim (look_path dependency) [ none ↦ others | some error ↦ reason error others ]

abbrev report : Reasons → Option Error
report no_reasons = none
report (reason error errors) =
    some (karma (codes "unable to locate required dependencies") (reason error errors))

-- `CheckPrerequisites`
unfoldable pub check_prerequisites : (Text → Option Error) → Option Error
unfolding missing
check_prerequisites look_path = report (missing look_path dependencies)

-- The other sidecar's `ReadFile`; `read` is `ioutil.ReadFile`.
abbrev pub shell_interface :
    Host → Place → Builder → (List Call → Text → Text × Option Error) → Interface Shell
shell_interface host place b read = record {
  serve = serve host place b;
  git_dir = λ s. s.git_dir;
  read_file = λ s dir path. read s.calls (join_path (dir ∷ path ∷ []));
}
