-- ===== src/Boot/Serving.antt =====
-- When the runner comes to serve, and with which configuration.
use snake_runner.Base.{
  ℕ, pos, Text, text_eq, List, [], ◌∷◌, ◌++◌, map, none, some, true, false, is_empty, is_abs,
  lookup, ◌≡◌, ◌≢◌, refl, ◌∙◌, ◌⊎◌, inl, inr,
}
use snake_runner.Errors.{Error}
use snake_runner.Runner.{Config, configured, docker_mode, shell_mode, load_config}
use snake_runner.Runner.Valid.{IsValid, load_config-IsValid}
use snake_runner.Start.{Answer, grants, refuses, start, start_registers}
use snake_runner.Docker.Containers.{Containers}
use snake_runner.Probe.Startup.{DockerReady, ShellReady, configured_starts}
use snake_runner.Api.{http_request}
use snake_runner.Api.Calls.{new_client, token_header, Operation, request_of}
use snake_runner.Api.Targets.{carries_token}
use snake_runner.Boot.{World, serves, launch, start_runner, boot}

-- Where the token comes from: the configuration has it, or there is none, its file can be written,
-- and the master grants it after some refusals.
abbrev pub GetsToken : World → Config → Text → Type 0
GetsToken world c token =
    ((is_empty c.access_token ≡ false) × (token ≡ c.access_token))
    ⊎ ((c.access_token ≡ [])
        × (world.files.make_dir ≡ none)
        × ((text : Text) → world.files.write text ≡ none)
        × (errors : List Error) × (rest : List Answer) × (world.answers
            ≡ map refuses errors ++ (grants token ∷ rest)))

-- What the mode of the configuration needs of the host.
abbrev pub IsReady : World → Config → Type 0
IsReady world c =
    (c.mode ≡ docker_mode → DockerReady world.host world.engine)
    × (c.mode ≡ shell_mode → ShellReady world.host)

with_token-IsValid :
    (c : Config) (token : Text) → IsValid c → IsValid (record c { access_token = token })
with_token-IsValid c token valid = record {
  known_mode = valid.known_mode;
  parallel = valid.parallel;
  absolute = valid.absolute;
  has_path = valid.has_path;
  has_master = valid.has_master;
  has_token = valid.has_token;
}

-- A valid configuration whose executor is ready comes to serve.
launch_serves :
    (world : World) (c : Config) (size : ℕ)
    → IsValid c
    → c.max_parallel_pipelines ≡ pos size
    → IsReady world c
    → (left : Containers) × (launch world c ≡ serves c left)
unfolding launch
launch_serves world c size valid e ready =
    let (left, error, started, cases) =
      configured_starts world.host c size world.engine world.containers valid e in
    let well : error ≡ none = elim cases [
      | inl (m, starts, rest) ↦ starts.1 (ready.0 m)
      | inr (m, starts, rest) ↦ starts.1 (ready.1 m)
    ] in
    (left, rw (started, launch) (rw well refl))

start_runner_token :
    (world : World) (c : Config) (token : Text)
    → GetsToken world c token
    → start_runner world c ≡ launch world (record c { access_token = token })
unfolding start_runner start
start_runner_token world c token (inl (has, e)) = rw (has, start) (rw e refl)
start_runner_token world c token (inr (e, made, writes, errors, rest, answers)) = rw answers (
    rw
      (start_registers world.files errors token rest
        (record { file = world.file; access_token = c.access_token; requests = 0 }) made writes e)
      refl)

-- Where `LoadConfig` returns a configuration without an error, its number of pipelines is not
-- negative, the access token is there or the master grants it at last and it can be stored, the
-- token is not empty, and what the mode needs of the host is there, the runner comes to serve with
-- this configuration and this token, and each of its requests carries the token; the host has a
-- processor and an absolute working directory.
pub boot_serves :
    (world : World) (c : Config) (size : ℕ) (token version : Text)
    → load_config world.settings world.settings.loaded ≡ configured c
    → world.settings.num_cpu ≢ 0
    → is_abs world.settings.working_dir.0 ≡ true
    → c.max_parallel_pipelines ≡ pos size
    → GetsToken world c token
    → IsReady world c
    → is_empty token ≡ false
    → (left : Containers) × (boot world ≡ serves (record c { access_token = token }) left)
      × ((operation : Operation)
          → lookup token_header
              (http_request (
                request_of
                  (new_client version (record c { access_token = token }))
                  operation)).headers
            ≡ some token)
unfolding boot new_client
boot_serves world c size token version loads cpus dir e gets ready there =
    let d = record c { access_token = token } in
    let valid =
      with_token-IsValid c token
        (load_config-IsValid world.settings world.settings.loaded c cpus dir loads) in
    let (left, served) = launch_serves world d size valid e ready in
    (
      left,
      rw (loads, boot) (start_runner_token world c token gets ∙ served),
      λ operation. carries_token (new_client version d) operation ∙ rw there refl,
    )
