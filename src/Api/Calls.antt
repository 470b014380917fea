-- ===== src/Api/Calls.antt =====
-- internal/api/client.go: the requests that the client makes.
use snake_runner.Base.{
  ℤ, itoa, Text, text_eq, codes, List, [], ◌++◌, Option, none, some, Bool, true, false, is_empty,
  insert, trim_slash, if◌then◌else◌,
}
use snake_runner.Client
use snake_runner.Client.{update_pipeline, update_job}
use snake_runner.Runner.{Config}
use snake_runner.Api.{Payload, task_update, heartbeat, runner_register, task, logs_push, Request}

pub record ApiClient : Type 0 where
  pub config : Config
  pub useragent : Text
  pub base_url : Text

-- `NewClient`, for a version of the runner
unfoldable pub new_client : Text → Config → ApiClient
unfolding trim_slash
new_client version config = record {
  config = config;
  useragent = codes "snake-runner/" ++ version;
  base_url = trim_slash config.master_address ++ codes "/rest/snake-ci/1.0";
}

-- `Header`
unfoldable pub set_header : Text → Text → Request → Request
unfolding insert
set_header name value request = record request { headers = insert name value request.headers }

abbrev pub token_header : Text
token_header = codes "X-Snake-Runner-Access-Token"

abbrev pub name_header : Text
name_header = codes "X-Snake-Runner-Name"

-- `NewRequest` and `BaseURL`
unfoldable pub new_request : Text → Request
new_request base_url = record {
  base_url = base_url;
  method = [];
  path = [];
  payload = none;
  expected_statuses = [];
  has_response = false;
  headers = [];
}

-- `request`
unfoldable pub request : ApiClient → Request
unfolding set_header new_request
request client =
    let named = set_header (codes "X-Atlassian-Token") (codes "no-check") (
      set_header name_header client.config.name
        (set_header (codes "User-Agent") client.useragent (new_request client.base_url))) in
    if is_empty client.config.access_token
    then named
    else set_header token_header client.config.access_token named

-- The client's methods with their arguments.
pub data Operation : Type 0 where
  heartbeats : Option Text → Operation
  registers : Text → Text → Operation
  gets_task : List ℤ → Bool → Text → Operation
  updates : Client.Call → Operation
  pushes_logs : ℤ → ℤ → Text → Operation

-- `Method`, `Path`, `Payload` and `Response`
unfoldable pub fill : Text → Text → Payload → Bool → Request → Request
fill method path payload has_response request = record request {
  method = method;
  path = path;
  payload = some payload;
  has_response = has_response;
}

abbrev pub job_path : ℤ → ℤ → Text
job_path pipeline_id job_id =
    codes "/gate/pipelines/" ++ (itoa pipeline_id ++ (codes "/jobs/" ++ itoa job_id))

-- `UpdatePipeline` and `UpdateJob`
unfoldable pub update_request : ApiClient → Client.Call → Request
unfolding request fill
update_request client (update_pipeline id status started_at finished_at) =
    fill (codes "PUT") (codes "/gate/pipelines/" ++ itoa id)
      (task_update status started_at finished_at) false (request client)
update_request client (update_job pipeline_id job_id status started_at finished_at) =
    fill (codes "PUT") (job_path pipeline_id job_id) (task_update status started_at finished_at)
      false (request client)

-- `Heartbeat`, `Register`, `GetTask`, the updates, and `PushLogs`
unfoldable pub request_of : ApiClient → Operation → Request
unfolding request fill update_request
request_of client (heartbeats version) =
    fill (codes "POST") (codes "/gate/heartbeat") (heartbeat version) false (request client)
request_of client (registers name token) =
    fill (codes "POST") (codes "/gate/register") (runner_register name token) true (request client)
request_of client (gets_task running query ssh_key) =
    fill (codes "POST") (codes "/gate/task") (task running query ssh_key) true (request client)
request_of client (updates call) = update_request client call
request_of client (pushes_logs pipeline_id job_id text) =
    fill (codes "POST")
      (codes "/gate/pipelines/"
        ++ (itoa pipeline_id ++ (codes "/jobs/" ++ (itoa job_id ++ codes "/logs"))))
      (logs_push text) false (request client)
