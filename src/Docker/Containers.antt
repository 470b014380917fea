-- ===== src/Docker/Containers.antt =====
-- `Create`, `Destroy` and `Cleanup`: the containers of the executor, on a Docker engine that keeps
-- them in a list.
pub mod Cleanup
use snake_runner.Base.{
  Text, text_eq, text_beq, codes, List, [], ◌∷◌, ◌++◌, keep, Option, none, some, Bool, true, false,
  not, ◌&&◌, ◌||◌, ℕ, suc, if◌then◌else◌, ◌≡◌, refl, sym, ap, ◌∙◌, Bool-cases, arith, inl, inr,
}
use snake_runner.Errors.{Error, format}

-- A container, whether it runs, and whether it has our label.
pub record Container : Type 0 where
  pub id : Text
  pub name : Text
  pub image : Text
  pub binds : List Text
  pub network : Text
  pub is_running : Bool
  pub ours : Bool

-- `Docker` without the client.
pub record Docker : Type 0 where
  pub network : Text
  pub volumes : List Text

pub record CreateOptions : Type 0 where
  pub name : Text
  pub image : Text
  pub volumes : List Text

-- How the calls of the client end: the identifier of a new container or an error, the error of a
-- start, that of a listing, and that of the removal of a container.
pub record ContainerEngine : Type 0 where
  pub new_id : Text
  pub create : Option Error
  pub start : Option Error
  pub list : Option Error
  pub remove : Text → Option Error

abbrev pub Containers : Type 0
Containers = List Container

-- The container that the client is told to make.
unfoldable pub container_of : Docker → ContainerEngine → CreateOptions → Bool → Container
container_of docker engine opts is_running = record {
  id = engine.new_id;
  name = opts.name;
  image = opts.image;
  binds = docker.volumes ++ opts.volumes;
  network = docker.network;
  is_running = is_running;
  ours = true;
}

-- `Create`: the engine's containers, and the identifier or the error.
unfoldable pub create :
    Docker → ContainerEngine → CreateOptions → Containers → Containers × (Text × Option Error)
unfolding container_of
create docker engine opts containers = elim engine.create [
  | some error ↦ (containers, ([], some error))
  | none ↦ elim engine.start [
    | some error ↦ (
      container_of docker engine opts false ∷ containers,
      ([], some (format error (codes "unable to start created container"))),
    )
    | none ↦ (container_of docker engine opts true ∷ containers, (engine.new_id, none))
  ]
]

abbrev pub other_than : Text → Container → Bool
other_than id c = not (text_beq c.id id)

-- `ContainerRemove` of the container of an identifier.
unfoldable pub remove : ContainerEngine → Text → Containers → Containers × Option Error
remove engine id containers = elim (engine.remove id) [
  | some error ↦ (containers, some error)
  | none ↦ (keep (other_than id) containers, none)
]

-- `Destroy`, where `none` is the nil container.
unfoldable pub destroy : ContainerEngine → Option Text → Containers → Containers × Option Error
unfolding remove
destroy engine none containers = (containers, none)
destroy engine (some id) containers = remove engine id containers

-- The loop of `Cleanup` over the containers that were listed: each of ours is destroyed, an error is
-- logged only, and all of them are counted.
unfoldable pub destroy_ours : ContainerEngine → Containers → Containers → ℕ → Containers × ℕ
unfolding destroy
destroy_ours engine [] containers destroyed = (containers, destroyed)
destroy_ours engine (c ∷ listed) containers destroyed =
    destroy_ours engine listed
      (if c.ours then (destroy engine (some c.id) containers).0 else containers)
      (if c.ours then suc destroyed else destroyed)

abbrev pub runs : Container → Bool
runs c = c.is_running

-- `Cleanup`; the option is the error of the listing. Without the option `All` the list has the
-- running containers only. With the error comes the number of containers that it logs.
unfoldable pub clean_up : ContainerEngine → Containers → Containers × (ℕ × Option Error)
unfolding destroy_ours
clean_up engine containers = elim engine.list [
  | some error ↦ (containers, (0, some (format error (codes "unable to list containers"))))
  | none ↦
      let (left, destroyed) = destroy_ours engine (keep runs containers) containers 0 in
      (left, (destroyed, none))
]
