-- ===== src/Runner.antt =====
-- internal/runner/config.go: `LoadConfig`. The loader of the file and of the environment's variables
-- (kovetskiy/ko) is outside, and so are the JSON decoder and the operating system; `Host` holds
-- what they return.
pub mod Valid
use snake_runner.Base.{
  ℕ, zero, suc, ℤ, pos, int_eq, Text, text_eq, codes, List, [], ◌∷◌, Option, none, some, Bool, true,
  false, not, ◌&&◌, ◌==◌, is_empty, is_abs, join_path, if◌then◌else◌,
}
use snake_runner.Errors.{Error, message, format}
use snake_runner.Masker.{trim_space}
use snake_runner.Set.{TypeSet, has, new_set}

-- The configuration, less the intervals and the log levels.
pub record Config : Type 0 where
  pub master_address : Text
  pub registration_token : Text
  pub access_token : Text
  pub access_token_path : Text
  pub mode : Text
  pub max_parallel_pipelines : ℤ
  pub name : Text
  pub pipelines_dir : Text
  pub docker_network : Text
  pub docker_volumes : List Text
  pub auth_config_json : Text
  pub sidecar_volumes : List Text

-- How `ko.Load` ends: with a configuration, without the file, or with an error.
pub data Loaded : Type 0 where
  loads : Config → Loaded
  is_missing : Config → Loaded
  breaks : Error → Loaded

-- How a file is read: its contents, no such file, or an error.
pub data Contents : Type 0 where
  contains : Text → Contents
  not_there : Contents
  unreadable : Error → Contents

pub record Host : Type 0 where
  pub loaded : Loaded
  pub read_file : Text → Contents
  pub num_cpu : ℕ
  pub hostname : Text × Option Error
  pub working_dir : Text × Option Error
  -- SNAKE_DOCKER_AUTH_CONFIG
  pub auth_variable : Text
  pub decode_auths : Text → Option Error

-- What `LoadConfig` returns.
pub data Result : Type 0 where
  configured : Config → Result
  not_configured : Config → Result
  fails : Error → Result

abbrev pub docker_mode : Text
docker_mode = codes "docker"

abbrev pub shell_mode : Text
shell_mode = codes "shell"

abbrev pub modes : TypeSet Text
modes = new_set (docker_mode ∷ shell_mode ∷ [])

abbrev default_access_token_path : Text
default_access_token_path = codes "/var/lib/snake-runner/secrets/access_token"

abbrev pub default_pipelines_dir : Text
default_pipelines_dir = codes "/var/lib/snake-runner/pipelines"

module _ (host : Host) where
  unfoldable pub set_token_path : Config → Config
  set_token_path c =
      if is_empty c.access_token_path
      then record c { access_token_path = default_access_token_path }
      else c

  -- The token of the file, where there is none yet; a file that is not there counts as empty.
  unfoldable pub token_of : Config → Contents → Config × Option Error
  token_of c (contains text) = (record c { access_token = trim_space text }, none)
  token_of c not_there = (record c { access_token = [] }, none)
  token_of c (unreadable error) =
      (c, some (format error (codes "unable to read specified token file")))

  unfoldable pub read_token : Config → Config × Option Error
  unfolding token_of
  read_token c =
      if is_empty c.access_token then token_of c (host.read_file c.access_token_path) else (c, none)

  unfoldable pub set_parallel : Config → Config
  set_parallel c =
      if c.max_parallel_pipelines == pos 0
      then record c { max_parallel_pipelines = pos host.num_cpu }
      else c

  unfoldable pub set_name : Config → Config × Option Error
  set_name c =
      if is_empty c.name
      then elim host.hostname.1 [
        | some error ↦ (c, some (format error (codes "unable to obtain hostname")))
        | none ↦ (record c { name = host.hostname.0 }, none)
      ]
      else (c, none)

  unfoldable pub set_dir : Config → Config
  set_dir c =
      if is_empty c.pipelines_dir then record c { pipelines_dir = default_pipelines_dir } else c

  -- `filepath.Abs` of a path that is not absolute.
  unfoldable pub set_abs : Config → Config × Option Error
  set_abs c = if is_abs c.pipelines_dir then (c, none) else elim host.working_dir.1 [
    | some error ↦ (c, some (format error (codes "unable to get absolute path")))
    | none ↦
        (record c { pipelines_dir = join_path (host.working_dir.0 ∷ c.pipelines_dir ∷ []) }, none)
  ]

  unfoldable pub set_auths : Config → Config × Option Error
  set_auths c =
      let json = if is_empty c.auth_config_json then host.auth_variable else c.auth_config_json in
      let done = record c { auth_config_json = json } in
      if is_empty json then (done, none) else elim (host.decode_auths json) [
        | none ↦ (done, none)
        | some error ↦
            (done, some (format error (codes "unable to decode JSON in the docker auth config")))
      ]

  abbrev pub and_then : Config × Option Error → (Config → Result) → Result
  and_then (c, none) go = go c
  and_then (c, some error) go = fails error

  -- `LoadConfig` from the check of the mode on.
  unfoldable pub complete : Config → Result
  unfolding set_parallel set_name set_dir set_abs set_auths
  complete c =
      if not (has modes c.mode)
      then fails (message (codes "unknown mode specified"))
      else and_then (set_name (set_parallel c))
          (λ c. and_then (set_abs (set_dir c)) (λ c. and_then (set_auths c) configured))

  unfoldable pub configure : Config → Result
  unfolding set_token_path read_token complete
  configure c =
      if is_empty c.master_address
      then not_configured c
      else if is_empty c.registration_token
      then not_configured c
      else and_then (read_token (set_token_path c)) complete

  -- `LoadConfig`
  unfoldable pub load_config : Loaded → Result
  unfolding configure
  load_config (breaks error) = fails error
  load_config (is_missing c) = not_configured c
  load_config (loads c) = configure c
