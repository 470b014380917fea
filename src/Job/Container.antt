-- ===== src/Job/Container.antt =====
-- What a job does with its container and its commands.
use snake_runner.Base.{
  Text, text_eq, List, [], ◌∷◌, ◌++◌, map, append-nil, Option, Option-cases, none, some, lookup,
  ◌≡◌, refl, ap, ◌∙◌, inl, inr, arith,
}
use snake_runner.Errors.{Error}
use snake_runner.Config.{Job, Pipeline}
use snake_runner.Job.{
  Action, prepares, creates, detects, executes, destroys, Surroundings, get_image,
  get_docker_auth_config, detect_shell, exec_commands, exec_with, use_container, run_container, run,
}

-- The commands of the actions, in order.
abbrev pub commands_of : List Action → List Text
commands_of [] = []
commands_of (executes container shell command ∷ actions) = command ∷ commands_of actions
commands_of (_ ∷ actions) = commands_of actions

-- Each command succeeds in the container after those before it.
abbrev pub AllPass : Surroundings → Text → List Text → List Text → Type 0
AllPass world container before [] = Unit
AllPass world container before (command ∷ commands) =
    (world.exec container before command ≡ none)
    × AllPass world container (before ++ command ∷ []) commands

exec_commands_lem :
    (world : Surroundings) (container shell : Text) (before commands : List Text)
    → (exec_commands world container shell before commands).1 ≡ none
    → ((exec_commands world container shell before commands).0
        ≡ map (executes container shell) commands)
      × AllPass world container before commands
unfolding exec_commands
exec_commands_lem world container shell before [] e = (refl, tt)
exec_commands_lem world container shell before (command ∷ commands) e =
    elim (Option-cases (world.exec container before command)) [
      | inr (error, f) ↦ absurd (cc (rw (f, exec_commands) at e))
      | inl f ↦
          let rest =
            exec_commands_lem world container shell (before ++ command ∷ []) commands
              (rw (f, exec_commands) at e) in
          (rw (f, exec_commands) (ap (◌∷◌ (executes container shell command)) rest.0), (f, rest.1))
    ]

commands-append : (xs ys : List Action) → commands_of (xs ++ ys) ≡ commands_of xs ++ commands_of ys
commands-append [] ys = refl
commands-append (prepares i ∷ xs) ys = commands-append xs ys
commands-append (creates i ∷ xs) ys = commands-append xs ys
commands-append (detects i ∷ xs) ys = commands-append xs ys
commands-append (executes i s c ∷ xs) ys = ap (◌∷◌ c) (commands-append xs ys)
commands-append (destroys i ∷ xs) ys = commands-append xs ys

commands-map :
    (container shell : Text) (commands : List Text)
    → commands_of (map (executes container shell) commands) ≡ commands
commands-map container shell [] = refl
commands-map container shell (command ∷ commands) =
    ap (◌∷◌ command) (commands-map container shell commands)

detect_shell_silent :
    (world : Surroundings) (container : Text) (pipeline : Pipeline) (job : Job)
    → commands_of (detect_shell world container pipeline job).0 ≡ []
unfolding detect_shell
detect_shell_silent world container pipeline job = ground arith

exec_with_lem :
    (world : Surroundings) (container : Text) (job : Job)
    (found : List Action × (Text × Option Error))
    → commands_of found.0 ≡ []
    → (exec_with world container job found).1 ≡ none
    → (commands_of (exec_with world container job found).0 ≡ job.commands)
      × AllPass world container [] job.commands
unfolding exec_with
exec_with_lem world container job (actions, (shell, some error)) silent h = absurd (cc h)
exec_with_lem world container job (actions, (shell, none)) silent h =
    let all = exec_commands_lem world container shell [] job.commands h in
    (
      commands-append actions _ ∙ rw (silent, all.0) (commands-map container shell job.commands),
      all.1,
    )

use_container_lem :
    (world : Surroundings) (container : Text) (pipeline : Pipeline) (job : Job)
    → (use_container world container pipeline job).1 ≡ none
    → (commands_of (use_container world container pipeline job).0 ≡ job.commands)
      × AllPass world container [] job.commands
unfolding use_container
use_container_lem world container pipeline job h =
    exec_with_lem world container job (detect_shell world container pipeline job)
      (detect_shell_silent world container pipeline job) h

-- Where the run from `Prepare` on returns no error, the image could be prepared and a container be
-- made from it, which was used without an error.
run_container_lem :
    (world : Surroundings) (pipeline : Pipeline) (job : Job)
    → (run_container world pipeline job).1 ≡ none
    → let image = world.expand (get_image pipeline job) in
      (world.prepare image ≡ none)
      × ((world.create image).1 ≡ none)
      × ((run_container world pipeline job).0
          ≡ prepares image
            ∷ creates image
            ∷ ((use_container world (world.create image).0 pipeline job).0
                ++ destroys (world.create image).0 ∷ []))
      × ((use_container world (world.create image).0 pipeline job).1 ≡ none)
unfolding run_container
run_container_lem world pipeline job h = ground arith

-- Where a job's run returns no error, the file has the job, its image was prepared and a container
-- made from it, all its commands ran, in order and nothing else, and each of them succeeded in this
-- container after those before it.
pub run_success :
    (world : Surroundings) (pipeline : Pipeline) (name : Text)
    → (run world pipeline name).1 ≡ none
    → (job : Job) × (lookup name pipeline.jobs ≡ some job)
      × (let image = world.expand (get_image pipeline job) in
          (world.prepare image ≡ none)
          × ((world.create image).1 ≡ none)
          × AllPass world (world.create image).0 [] job.commands)
      × (commands_of (run world pipeline name).0 ≡ job.commands)
unfolding run
run_success world pipeline name h = elim (Option-cases (lookup name pipeline.jobs)) [
  | inl e ↦ absurd (cc (rw (e, run) at h))
  | inr (job, e) ↦ elim (Option-cases (get_docker_auth_config world job)) [
    | inr (error, f) ↦ absurd (ground arith)
    | inl f ↦
        let (prepared, made, actions, ended) =
          run_container_lem world pipeline job (ground arith) in
        let container = (world.create (world.expand (get_image pipeline job))).0 in
        let (ran, passed) = use_container_lem world container pipeline job ended in
        (
          job,
          e,
          (prepared, made, passed),
          rw (e, run)
              (rw (f, actions)
                (commands-append (use_container world container pipeline job).0
                    (destroys container ∷ [])
                  ∙ rw append-nil ran)),
        )
  ]
]
