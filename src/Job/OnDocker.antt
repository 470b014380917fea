-- ===== src/Job/OnDocker.antt =====
-- A job whose executor is Docker: `Run` of internal/job/process.go over the calls of
-- internal/executor/docker/docker.go.
use snake_runner.Base.{
  Text, text_eq, text_beq, text_beq_iff, List, [], ◌∷◌, ◌++◌, keep, All, Option, Option-cases, none,
  some, true, false, ◌≡◌, refl, ap, inl, inr, arith,
}
use snake_runner.Errors.{Error}
use snake_runner.Config.{Job}
use snake_runner.Docker.Images.{ImageEngine, prepare}
use snake_runner.Docker.Containers
use snake_runner.Docker.Containers.{
  Docker, ContainerEngine, CreateOptions, Container, Containers, container_of, other_than,
}
use snake_runner.Docker.Execs
use snake_runner.Docker.Execs.{ExecEngine, is_positive}
use snake_runner.Job.{Surroundings}

-- The Docker client during one job: the images, the containers, the name and the volumes of a new
-- container, and in a container the search for the shell, and each command after those before it.
pub record Client : Type 0 where
  pub images : ImageEngine
  pub docker : Docker
  pub engine : ContainerEngine
  pub name : Text
  pub volumes : List Text
  pub detection : Text → ExecEngine
  pub command : Text → List Text → Text → ExecEngine

-- The options of `Create` for an image.
abbrev pub options_of : Client → Text → CreateOptions
options_of client image = record { name = client.name; image = image; volumes = client.volumes }

-- The deferred `Destroy`, where `Create` has returned a container.
abbrev settle : ContainerEngine → Containers × (Text × Option Error) → Containers
settle engine (now, (id, none)) = (Containers.destroy engine (some id) now).0
settle engine (now, (id, some error)) = now

module _ (client : Client) (containers : Containers) where
  -- `Create` for an image: the containers, and the identifier or the error.
  abbrev pub create_for : Text → Containers × (Text × Option Error)
  create_for image =
      Containers.create client.docker client.engine (options_of client image) containers

  -- `Create` and the deferred `Destroy` of `Run`.
  unfoldable pub containers_left : Text → Containers
  containers_left image = settle client.engine (create_for image)

  abbrev pub surroundings : (Text → Text) → (Text → Option Error) → Surroundings
  surroundings expand decode_auths = record {
    expand = expand;
    decode_auths = decode_auths;
    prepare = λ image. (prepare client.images image).1;
    create = λ image. (create_for image).1;
    detect_shell = λ container. Execs.detect_shell (client.detection container);
    exec = λ container before command. Execs.exec (client.command container before command);
  }

  -- No container has the identifier of the new one.
  abbrev pub IsFresh : Type 0
  IsFresh = All (λ c. text_beq c.id client.engine.new_id ≡ false) containers

keep_others :
    (id : Text) (containers : Containers)
    → All (λ c. text_beq c.id id ≡ false) containers
    → keep (other_than id) containers ≡ containers
keep_others id [] h = refl
keep_others id (c ∷ containers) h = rw h.0 (ap (◌∷◌ c) (keep_others id containers h.1))

-- The container that was made for the image, and runs.
abbrev pub IsMade : Client → Containers → Text → Container → Type 0
IsMade client containers image c =
    (create_for client containers image ≡ (c ∷ containers, (c.id, none)))
    × (c.image ≡ image)
    × (c.is_running ≡ true)

-- Every call for a command succeeds, and its exit code is not greater than zero.
abbrev pub AllExit : (List Text → Text → ExecEngine) → List Text → List Text → Type 0
AllExit command before [] = Unit
AllExit command before (c ∷ commands) =
    ((command before c).create ≡ none)
    × ((command before c).attach ≡ none)
    × ((command before c).copy ≡ none)
    × ((command before c).inspect ≡ none)
    × (is_positive (command before c).exit_code ≡ false)
    × AllExit command (before ++ c ∷ []) commands

left_of_one :
    (client : Client) (c : Container) (containers : Containers)
    → c.id ≡ client.engine.new_id
    → IsFresh client containers
    → client.engine.remove client.engine.new_id ≡ none
    → (Containers.destroy client.engine (some client.engine.new_id) (c ∷ containers)).0 ≡ containers
unfolding Containers.destroy Containers.remove
left_of_one client c containers e fresh removes =
    rw (removes, Containers.remove)
      (ground (
        arith,
        keep_others client.engine.new_id containers fresh,
        text_beq_iff c.id client.engine.new_id,
      ))

-- Where no container has the identifier of a new one and the removal of that one succeeds, the
-- `Create` and the deferred `Destroy` of a job leave the containers as they were, unless the
-- container was created and could not be started: then it stays.
pub job_leaves_containers :
    (client : Client) (containers : Containers) (image : Text)
    → IsFresh client containers
    → client.engine.remove client.engine.new_id ≡ none
    → containers_left client containers image ≡ (elim client.engine.create [
      | some error ↦ containers
      | none ↦ elim client.engine.start [
        | some error ↦
            container_of client.docker client.engine (options_of client image) false ∷ containers
        | none ↦ containers
      ]
    ])
unfolding containers_left Containers.create Containers.destroy Containers.remove container_of
job_leaves_containers client containers image fresh removes =
    elim (Option-cases client.engine.create) [
      | inr (error, e) ↦ rw (e, Containers.create) refl
      | inl e ↦ elim (Option-cases client.engine.start) [
        | inr (error, f) ↦ rw (e, f, Containers.create) refl
        | inl f ↦
            rw (e, f, Containers.create)
              (left_of_one client
                (container_of client.docker client.engine (options_of client image) true) containers
                refl fresh removes)
      ]
    ]
