-- ===== src/Job.antt =====
-- internal/job/process.go: one job in its container. The executor is outside, and so are the JSON
-- decoder, the environment's expansion (`expandEnv`) and the logs; `Surroundings` holds what they
-- return. A command's outcome may depend on the commands before it.
pub mod Container
pub mod OnDocker
pub mod Logs
use snake_runner.Base.{
  Text, text_eq, codes, List, [], ◌∷◌, ◌++◌, map, Option, none, some, is_empty, lookup,
  if◌then◌else◌,
}
use snake_runner.Errors.{Error, message, format}
use snake_runner.MapSlice.{Pair, find}
use snake_runner.Config.{Job, Pipeline}

-- The calls of the executor that change something, and those of `DetectShell`.
pub data Action : Type 0 where
  prepares : Text → Action
  -- a call of `Create` for an image, whether it succeeds or not
  creates : Text → Action
  -- in the container: the search for the shell, the shell with the command, and `Destroy`
  detects : Text → Action
  executes : Text → Text → Text → Action
  destroys : Text → Action

pub record Surroundings : Type 0 where
  pub expand : Text → Text
  -- `json.Unmarshal` of a DOCKER_AUTH_CONFIG; its error
  pub decode_auths : Text → Option Error
  pub prepare : Text → Option Error
  -- the identifier of the container that is made for an image, or the error
  pub create : Text → Text × Option Error
  -- the shell in a container, or the error
  pub detect_shell : Text → Text × Option Error
  -- the container, the commands that ran in it before, and the command
  pub exec : Text → List Text → Text → Option Error

abbrev pub default_image : Text
default_image = codes "alpine:latest"

abbrev pub auth_key : Text
auth_key = codes "DOCKER_AUTH_CONFIG"

-- `getImage` without the expansion.
unfoldable pub get_image : Pipeline → Job → Text
get_image pipeline job =
    if is_empty job.image
    then if is_empty pipeline.image then default_image else pipeline.image
    else job.image

-- `getDockerAuthConfig`
unfoldable pub get_docker_auth_config : Surroundings → Job → Option Error
get_docker_auth_config world job = elim job.variables [
  | none ↦ none
  | some pairs ↦ elim (find pairs auth_key) [
    | none ↦ none
    | some raw ↦ elim (world.decode_auths raw.value) [
      | none ↦ none
      | some e ↦
          some (format e (codes "unable to decode DOCKER_AUTH_CONFIG specified on the job level"))
    ]
  ]
]

abbrev detection_error : Option Error → Option Error
detection_error none = none
detection_error (some e) = some (format e (codes "unable to detect shell"))

-- `detectShell`: the calls it makes, the shell, and the error.
unfoldable pub detect_shell :
    Surroundings → Text → Pipeline → Job → List Action × (Text × Option Error)
detect_shell world container pipeline job =
    if is_empty pipeline.shell
    then if is_empty job.shell
      then (
        detects container ∷ [],
        ((world.detect_shell container).0, detection_error (world.detect_shell container).1),
      )
      else ([], (job.shell, none))
    else ([], (pipeline.shell, none))

-- The loop over the commands; `before` has run.
unfoldable pub exec_commands :
    Surroundings → Text → Text → List Text → List Text → List Action × Option Error
exec_commands world container shell before [] = ([], none)
exec_commands world container shell before (command ∷ commands) =
    let (actions, error) = exec_commands world container shell (before ++ command ∷ []) commands in
    elim (world.exec container before command) [
      | some e ↦ (executes container shell command ∷ [], some (format e (codes "command failed")))
      | none ↦ (executes container shell command ∷ actions, error)
    ]

-- The commands in the shell that the detection found, after the detection's calls.
unfoldable pub exec_with :
    Surroundings → Text → Job → List Action × (Text × Option Error) → List Action × Option Error
unfolding exec_commands
exec_with world container job (actions, (shell, some e)) =
    (actions, some (format e (codes "unable to detect shell in container")))
exec_with world container job (actions, (shell, none)) =
    let (more, error) = exec_commands world container shell [] job.commands in
    (actions ++ more, error)

-- What happens with the container, before its destruction.
unfoldable pub use_container : Surroundings → Text → Pipeline → Job → List Action × Option Error
unfolding detect_shell exec_with
use_container world container pipeline job =
    exec_with world container job (detect_shell world container pipeline job)

-- From `Prepare` on.
unfoldable pub run_container : Surroundings → Pipeline → Job → List Action × Option Error
unfolding use_container get_image
run_container world pipeline job =
    let image = world.expand (get_image pipeline job) in
    let (container, failure) = world.create image in
    let (actions, error) = use_container world container pipeline job in
    elim (world.prepare image) [
      | some e ↦ (prepares image ∷ [], some (format e (codes "unable to pull image")))
      | none ↦ elim failure [
        | some e ↦ (
          prepares image ∷ creates image ∷ [],
          some (format e (codes "unable to create a container")),
        )
        | none ↦ (prepares image ∷ creates image ∷ (actions ++ destroys container ∷ []), error)
      ]
    ]

-- `Run` for the job of a name.
unfoldable pub run : Surroundings → Pipeline → Text → List Action × Option Error
unfolding run_container get_docker_auth_config
run world pipeline name = elim (lookup name pipeline.jobs) [
  | none ↦ ([], some (message (codes "unable to find given job")))
  | some job ↦ elim (get_docker_auth_config world job) [
    | some e ↦ ([], some e)
    | none ↦ run_container world pipeline job
  ]
]
