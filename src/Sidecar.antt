-- ===== src/Sidecar.antt =====
-- internal/sidecar: what fetches a pipeline's repository and keeps the ssh-agent, as the two
-- sidecars share it. The executor and the operating system are outside: `Host` says how each call
-- ends, which may depend on the calls before it.
pub mod Agent
pub mod Cloud
pub mod Shell
use snake_runner.Base.{
  ℤ, pos, int_eq, itoa, Text, codes, List, [], ◌∷◌, ◌++◌, map, join, Option, none, some, Bool, true,
  false, not, ◌&&◌, ◌==◌, if◌then◌else◌,
}
use snake_runner.Errors.{Error}

pub record KnownHost : Type 0 where
  pub hostname : Text
  pub port : ℤ
  pub key : Text

-- `HostPort`
unfoldable pub host_port : KnownHost → Text
host_port host =
    if not (host.port == pos 22) && not (host.port == pos 0)
    then codes "[" ++ (host.hostname ++ (codes "]:" ++ itoa host.port))
    else host.hostname

-- `joinKnownHosts`
unfoldable pub join_known_hosts : List KnownHost → Text
unfolding host_port
join_known_hosts hosts =
    join (10 ∷ []) (map (λ host. host_port host ++ (codes " " ++ host.key)) hosts)

-- The options of an execution: the command, the environment, and what is given on the input.
pub record Exec : Type 0 where
  pub cmd : List Text
  pub env : List Text
  pub stdin : Option Text

-- The calls of the executor and the operating system. A prompt is a line of the job's log.
pub data Call : Type 0 where
  prepares : Text → Call
  makes_temp_dir : Call
  makes_dir : Text → Call
  -- the name and the volumes
  creates : Text → List Text → Call
  starts_agent : Text → Call
  writes_file : Text → Text → Call
  prompts : List Text → Call
  execs : Exec → Call
  destroys : Call
  waits_agent : Call
  removes_dir : Text → Call

-- The error of a call, after those before it.
abbrev pub Host : Type 0
Host = List Call → Call → Option Error

pub record ServeOptions : Type 0 where
  pub known_hosts : List KnownHost
  pub clone_url : Text
  pub commit : Text

-- What a pipeline uses of a sidecar in a state `S`; the file is named by its directory and its path.
pub record Interface (S : Type 0) : Type 0 where
  pub serve : ServeOptions → S → S × Option Error
  pub git_dir : S → Text
  pub read_file : S → Text → Text → Text × Option Error
