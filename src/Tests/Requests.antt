-- ===== src/Tests/Requests.antt =====
-- The client's requests, and an exchange that succeeds with status 200.
use snake_runner.Base.{pos, itoa, codes, text_eq, [], none, some, nat_eq, ◌≡◌, refl}
use snake_runner.Errors.{canceled}
use snake_runner.Status.{Status}
use snake_runner.Client.{update_job}
use snake_runner.Runner.{Config, docker_mode}
use snake_runner.Api.{Transport, http_request}
use snake_runner.Api.Calls.{ApiClient, new_client, updates, request_of}
use snake_runner.Api.Targets.{target_of, same_target}

abbrev pub config : Config
config = record {
  master_address = codes "https://master/";
  registration_token = codes "r";
  access_token = codes "t";
  access_token_path = [];
  mode = docker_mode;
  max_parallel_pipelines = pos 1;
  name = codes "runner";
  pipelines_dir = codes "/var";
  docker_network = [];
  docker_volumes = [];
  auth_config_json = [];
  sidecar_volumes = [];
}

abbrev pub client : ApiClient
client = record {
  config = config;
  useragent = codes "snake-runner/1";
  base_url = codes "https://master/rest/snake-ci/1.0";
}

client_new : new_client (codes "1") config ≡ client
unfolding new_client
client_new = refl

abbrev pub answering : Transport
answering = record {
  encode = λ payload. none;
  create = none;
  exchange = λ sent. none;
  read = none;
  status = 200;
  remote = (canceled, none);
  decode = none;
}

job_url :
    (http_request
      (request_of client (updates (update_job (pos 7) (pos 42) Status.failed none none)))).url
    ≡ codes "https://master/rest/snake-ci/1.0/gate/pipelines/7/jobs/42"
unfolding http_request request_of itoa
job_url = refl

same_target_example :
    target_of (updates (update_job (pos 7) (pos 42) Status.failed none none))
    ≡ target_of (updates (update_job (pos 7) (pos 42) Status.running none (some 3)))
unfolding http_request request_of
same_target_example =
    same_target client (updates (update_job (pos 7) (pos 42) Status.failed none none))
      (updates (update_job (pos 7) (pos 42) Status.running none (some 3))) refl
