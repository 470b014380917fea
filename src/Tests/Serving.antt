-- ===== src/Tests/Serving.antt =====
-- A runner that is refused once at its registration, and then serves.
use snake_runner.Base.{
  codes, text_eq, int_eq, nat_eq, [], ◌∷◌, none, some, lookup, insert, ◌≡◌, refl, inr, arith,
}
use snake_runner.Errors.{canceled}
use snake_runner.Set.{has, new_set}
use snake_runner.Runner.{
  Config, load_config, configure, complete, read_token, token_of, set_token_path, set_parallel,
  set_name, set_dir, set_abs, set_auths,
}
use snake_runner.Start.{grants, refuses}
use snake_runner.Docker.Containers.{Containers}
use snake_runner.Api.{http_request}
use snake_runner.Api.Calls.{new_client, token_header, Operation, request_of}
use snake_runner.Boot.{World, serves, boot}
use snake_runner.Boot.Serving.{boot_serves}
use snake_runner.Tests.Hosts
use snake_runner.Tests.Hosts.{complete_config}
use snake_runner.Tests.Images.{containers, engine}
use snake_runner.Tests.Startup

abbrev world : World
world = record {
  settings = Hosts.host;
  file = none;
  files = record { make_dir = none; write = λ text. none };
  answers = refuses canceled ∷ grants (codes "t") ∷ [];
  host = Startup.host;
  engine = engine;
  containers = containers;
}

abbrev serving : Config
serving = record complete_config { access_token = codes "t" }

boot_serves_example :
    (left : Containers) × (boot world ≡ serves serving left)
    × ((operation : Operation)
        → lookup token_header
            (http_request (request_of (new_client (codes "1") serving) operation)).headers
          ≡ some (codes "t"))
unfolding load_config configure complete read_token token_of set_token_path set_parallel set_name
    set_dir set_abs set_auths has lookup new_set insert
boot_serves_example =
    boot_serves world complete_config 4 (codes "t") (codes "1") refl (omega arith) refl refl
      (inr (refl, refl, (λ text. refl), canceled ∷ [], [], refl))
      ((λ m. (refl, refl, refl)), (λ m. absurd (cc m))) refl
