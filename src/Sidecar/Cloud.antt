-- ===== src/Sidecar/Cloud.antt =====
-- internal/sidecar/cloud_sidecar.go: the sidecar in a container.
pub mod Script
pub mod End
pub mod Reading
use snake_runner.Base.{
  Text, codes, List, [], ◌∷◌, ◌++◌, join, join_path, Option, none, some, Bool, true, false,
  is_empty, if◌then◌else◌,
}
use snake_runner.Errors.{Error, format}
use snake_runner.Sidecar.{
  Host, Call, Interface, prepares, creates, starts_agent, prompts, execs, destroys, waits_agent,
  Exec, ServeOptions, join_known_hosts,
}

abbrev pub sidecar_image : Text
sidecar_image = codes "reconquest/snake-runner-sidecar"

-- The fields that the builder sets.
pub record Builder : Type 0 where
  pub name : Text
  pub pipelines_dir : Text
  pub slug : Text
  pub private_key : Text
  pub volumes : List Text

-- The others: whether there is a container, and an ssh-agent's wait group; and the calls so far.
pub record Cloud : Type 0 where
  pub container : Bool
  pub ssh_agent : Bool
  pub ssh_socket : Text
  pub ssh_known_hosts : Text
  pub calls : List Call

abbrev pub new_cloud : Cloud
new_cloud = record {
  container = false;
  ssh_agent = false;
  ssh_socket = [];
  ssh_known_hosts = [];
  calls = [];
}

abbrev pub Ended : Type 0
Ended = Cloud × Option Error

-- The code behind a call: it is reached without an error.
abbrev pub and_then : Ended → (Cloud → Ended) → Ended
and_then (s, none) go = go s
and_then (s, some error) go = (s, some error)

abbrev wrap : Text → Option Error → Option Error
wrap text none = none
wrap text (some error) = some (format error text)

module _ (host : Host) where
  -- One call, and its error under a text.
  unfoldable pub call : Cloud → Call → Text → Ended
  call s c text = (record s { calls = s.calls ++ c ∷ [] }, wrap text (host s.calls c))

  -- `startSshAgent`: the wait group is there whether it fails or not.
  unfoldable pub start_agent : Text → Cloud → Ended
  unfolding call
  start_agent socket s =
      and_then
        (call (record s { ssh_agent = true }) (starts_agent socket)
          (codes "unable to start ssh-agent"))
        (λ s. (record s { ssh_socket = socket }, none))

  -- `sidecar.executor.Create`
  unfoldable pub create_container : Text → List Text → Cloud → Ended
  unfolding call
  create_container name volumes s =
      and_then (call s (creates name volumes) (codes "unable to create sidecar container"))
        (λ s. (record s { container = true }, none))

  module _ (b : Builder) where
    -- `hostSubDir`, `containerDir`, `gitDir`, `sshDir`
    abbrev pub host_sub_dir : Text
    host_sub_dir = join_path (b.pipelines_dir ∷ b.name ∷ [])

    abbrev pub container_dir : Text
    container_dir = join_path (codes "/pipeline" ∷ [])

    abbrev pub git_dir : Text
    git_dir = join_path (container_dir ∷ codes "git" ∷ b.slug ∷ [])

    abbrev pub ssh_dir : Text
    ssh_dir = join_path (container_dir ∷ codes "ssh" ∷ [])

    abbrev pub socket_path : Text
    socket_path = join_path (ssh_dir ∷ codes "ssh-agent.sock" ∷ [])

    abbrev pub known_hosts_path : Text
    known_hosts_path = join_path (ssh_dir ∷ codes "known_hosts" ∷ [])

    abbrev pub serve_volumes : List Text
    serve_volumes =
        (host_sub_dir ++ (codes ":" ++ (container_dir ++ codes ":rw")))
        ∷ (b.pipelines_dir ++ codes ":/host:rw")
        ∷ b.volumes

    -- `ContainerVolumes`
    unfoldable pub container_volumes : List Text
    container_volumes =
        (host_sub_dir ++ (codes "/git/" ++ (b.slug ++ (codes ":" ++ git_dir))))
        ∷ (host_sub_dir ++ (codes "/ssh:" ++ ssh_dir))
        ∷ []

    -- `create`
    unfoldable pub create : Cloud → Ended
    unfolding call create_container
    create s =
        and_then (call s (prepares sidecar_image) (codes "unable to prepare sidecar"))
          (create_container (codes "snake-runner-sidecar-" ++ b.name) serve_volumes)

    abbrev pub make_dirs : Exec
    make_dirs = record {
      cmd = codes "mkdir" ∷ codes "-p" ∷ git_dir ∷ ssh_dir ∷ [];
      env = [];
      stdin = none;
    }

    abbrev pub socket_variable : Text
    socket_variable = codes "SSH_AUTH_SOCK=" ++ socket_path

    -- The commands that `bash` is to run, with the key and the known hosts in its environment.
    abbrev pub prepare_exec : ServeOptions → Exec
    prepare_exec opts = record {
      cmd =
          codes "bash"
          ∷ codes "-c"
          ∷ join (codes " && ") (
              codes "mkdir -vp ~/.ssh"
              ∷ codes "ssh-add -v - <<< \"$__SNAKE_PRIVATE_KEY\""
              ∷ (codes "cat > " ++ (known_hosts_path ++ codes " <<< \"$__SNAKE_SSH_KNOWN_HOSTS\""))
              ∷ (codes "cp -v " ++ (known_hosts_path ++ codes " ~/.ssh/known_hosts"))
              ∷ codes "git config --global advice.detachedHead false"
              ∷ [])
          ∷ [];
      env =
          socket_variable
          ∷ (codes "__SNAKE_PRIVATE_KEY=" ++ b.private_key)
          ∷ (codes "__SNAKE_SSH_KNOWN_HOSTS=" ++ join_known_hosts opts.known_hosts)
          ∷ [];
      stdin = none;
    }

    abbrev pub git : List Text → Exec
    git arguments = record {
      cmd = codes "git" ∷ codes "-C" ∷ git_dir ∷ arguments;
      env = socket_variable ∷ [];
      stdin = none;
    }

    -- The commands on the repository.
    abbrev pub git_commands : ServeOptions → List Exec
    git_commands opts =
        git (codes "clone" ∷ codes "--recursive" ∷ opts.clone_url ∷ codes "." ∷ [])
        ∷ git (codes "checkout" ∷ opts.commit ∷ [])
        ∷ []

    -- The loop over these commands: a prompt, and the execution.
    unfoldable pub run_commands : List Exec → Cloud → Ended
    unfolding call
    run_commands [] s = (s, none)
    run_commands (command ∷ commands) s =
        and_then
          (call (record s { calls = s.calls ++ prompts command.cmd ∷ [] }) (execs command)
            (codes "unable to setup repository"))
          (run_commands commands)

    -- `Serve`
    unfoldable pub serve : ServeOptions → Cloud → Ended
    unfolding create start_agent call run_commands
    serve opts s = and_then (create s) (λ s.
        and_then (call s (execs make_dirs) (codes "unable to create directories")) (λ s.
          and_then (start_agent socket_path s) (λ s.
            and_then
              (call (record s { ssh_known_hosts = known_hosts_path }) (execs (prepare_exec opts))
                (codes "unable to prepare sidecar container"))
              (run_commands (git_commands opts)))))

    abbrev pub clean_up : Exec
    clean_up = record {
      cmd = codes "rm" ∷ codes "-rf" ∷ join_path (codes "/host" ∷ b.name ∷ []) ∷ [];
      env = [];
      stdin = none;
    }

    -- The clean-up in front of the container's destruction; its error is logged only.
    unfoldable pub clean_dir : Cloud → Cloud
    unfolding call
    clean_dir s = if is_empty b.name then s else (call s (execs clean_up) []).0

    -- The end of `Destroy`: `sshAgent.Wait()` on a nil pointer panics, which the Boolean tells.
    unfoldable pub wait_agent : Ended → Cloud × Bool
    unfolding call
    wait_agent (s, some error) = (s, false)
    wait_agent (s, none) = if s.ssh_agent then ((call s waits_agent []).0, false) else (s, true)

    -- `Destroy`
    unfoldable pub destroy : Cloud → Cloud × Bool
    unfolding clean_dir wait_agent call
    destroy s = if s.container then wait_agent (call (clean_dir s) destroys []) else (s, false)

-- `ReadFile` where `cat` succeeds: the chunks of its output, joined by the callback.
unfoldable pub read_chunks : Text → List Text → Text
read_chunks contents [] = contents
read_chunks contents (line ∷ lines) =
    read_chunks (if is_empty contents then line else contents ++ (10 ∷ line)) lines

-- `ReadFile`, where `cat` says which chunks come and how the execution ends.
unfoldable pub read_output : List Text × Option Error → Text × Option Error
unfolding read_chunks
read_output (chunks, none) = (read_chunks [] chunks, none)
read_output (chunks, some error) = ([], some error)

abbrev pub cloud_interface :
    Host → Builder → (List Call → Text → Text → List Text × Option Error) → Interface Cloud
cloud_interface host b cat = record {
  serve = serve host b;
  git_dir = λ s. git_dir host b;
  read_file = λ s dir path. read_output (cat s.calls dir path);
}
