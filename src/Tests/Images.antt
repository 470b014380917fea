-- ===== src/Tests/Images.antt =====
-- The images of Docker and the credentials for a registry.
use snake_runner.Base.{
  Text, text_eq, codes, List, [], ◌∷◌, ◌++◌, none, Bool, true, false, lookup, ◌↔◌, ◌≡◌, refl, arith,
}
use snake_runner.Base64.{encode}
use snake_runner.Docker.Images.{
  Image, listed, ImageEngine, tag_of, get_image_by_tag, find_image, any_fits, fits, use_pulled,
  pull_image, use_found, prepare,
}
use snake_runner.Docker.Images.Exact.{Used, prepare_exact}
use snake_runner.Errors.{canceled}
use snake_runner.Docker.Auths.{AuthConfig, no_auth, ContextAuths, auth_list}
use snake_runner.Docker.Pulls.{PullEngine, pulls, pull, config_key}
use snake_runner.Docker.Pulls.Logins.{pull_sends_login}
use snake_runner.Docker.Containers.{Container, ContainerEngine, Docker, CreateOptions}

abbrev golang : Image
golang = record { id = codes "sha256:1"; tags = codes "golang:1.15" ∷ codes "golang:latest" ∷ [] }

-- The image is there after the pull only.
abbrev pub images : ImageEngine
images = record { first = listed []; pull = λ tag. none; second = listed (golang ∷ []) }

prepare_exact_example : Used images (tag_of (codes "golang")) (prepare images (codes "golang")).0
unfolding prepare use_found pull_image use_pulled get_image_by_tag find_image any_fits fits tag_of
prepare_exact_example = prepare_exact images (codes "golang") refl

abbrev server : Text
server = codes "docker.host"

abbrev login : AuthConfig
login = record no_auth { auth = encode (codes "bob:pw") }

abbrev marshal : AuthConfig → Text
marshal auth = auth.username ++ auth.password

-- The runner has credentials for every image, and the job has its own ones.
abbrev auths : ContextAuths
auths = record {
  runner = (server, record no_auth { username = codes "runner" }) ∷ [];
  env = [];
  pipeline = [];
  job = (server, login) ∷ [];
}

abbrev pulling : PullEngine
pulling = record {
  parse = λ query. none;
  normal = λ query. query ++ codes ":latest";
  resolve = λ reference. none;
  index_name = λ reference. server;
  is_official = λ reference. false;
  index_server = codes "https://index.docker.io/v1/";
  marshal = marshal;
  undecoded = canceled;
  image_pull = λ reference header. none;
  stream = none;
}

abbrev header : Text
header = encode (
    marshal (record login {
      auth = [];
      username = codes "bob";
      password = codes "pw";
      server_address = server;
    }))

pull_sends_login_example :
    ((pull pulling (auth_list auths) (codes "app")).0 ≡ pulls (codes "app:latest") header ∷ [])
    × (((pull pulling (auth_list auths) (codes "app")).1 ≡ none)
        ↔ ((pulling.image_pull (codes "app:latest") header ≡ none) × (pulling.stream ≡ none)))
unfolding config_key lookup
pull_sends_login_example =
    pull_sends_login pulling auths (codes "app") (codes "bob") (codes "pw") login refl refl refl
      (omega arith) (λ e. absurd (cc e)) (omega arith) refl refl refl

abbrev pub kept_as : Text → Bool → Bool → Container
kept_as id is_running ours = record {
  id = id;
  name = codes "job";
  image = codes "golang";
  binds = [];
  network = [];
  is_running = is_running;
  ours = ours;
}

abbrev pub containers : List Container
containers =
    kept_as (codes "a") true true
    ∷ kept_as (codes "b") false true
    ∷ kept_as (codes "c") true false
    ∷ []

abbrev pub engine : ContainerEngine
engine = record { new_id = []; create = none; start = none; list = none; remove = λ id. none }

abbrev pub docker : Docker
docker = record { network = []; volumes = [] }

abbrev pub new_job : CreateOptions
new_job = record { name = codes "job"; image = codes "golang"; volumes = [] }
