-- ===== src/Tests/Hosts.antt =====
-- The configuration of a runner, its next task, and a local command.
use snake_runner.Base.{
  pos, text_eq, codes, [], ◌∷◌, none, true, arith, nat_eq, lookup, insert, remove, length, ltb, ◌<◌,
  ◌≤◌, ◌⊎◌, ◌≡◌, refl,
}
use snake_runner.Set.{has, put, discard, new_set}
use snake_runner.Set.History.{is_one_of}
use snake_runner.Local.{
  Box, new_box, start, register, end_wait, unregister, begin_destroy, end_destroy, starts,
  registers, waits, unregisters, begins_destroy, Reach, here, next,
}
use snake_runner.Local.Kills.{destroy_kills}
use snake_runner.Runner.{
  Config, Host, loads, not_there, load_config, configure, complete, read_token, token_of,
  set_token_path, set_parallel, set_name, set_dir, set_abs, set_auths, docker_mode,
  default_pipelines_dir,
}
use snake_runner.Runner.Valid.{IsValid, load_config-IsValid}
use snake_runner.Scheduler.{pipeline_cancel}
use snake_runner.Api.{do_request}
use snake_runner.Tasks.{TaskResponse, Decoder, decoded, IsTask, get_task, get_task_serves}
use snake_runner.Api.Calls.{gets_task, request_of}
use snake_runner.Tests.Requests.{client, answering}

abbrev config : Config
config = record {
  master_address = codes "https://master";
  registration_token = codes "r";
  access_token = [];
  access_token_path = [];
  mode = docker_mode;
  max_parallel_pipelines = pos 0;
  name = [];
  pipelines_dir = [];
  docker_network = [];
  docker_volumes = [];
  auth_config_json = [];
  sidecar_volumes = [];
}

abbrev pub host : Host
host = record {
  loaded = loads config;
  read_file = λ path. not_there;
  num_cpu = 4;
  hostname = (codes "host", none);
  working_dir = (codes "/root", none);
  auth_variable = [];
  decode_auths = λ text. none;
}

abbrev pub complete_config : Config
complete_config = record config {
  access_token_path = codes "/var/lib/snake-runner/secrets/access_token";
  max_parallel_pipelines = pos 4;
  name = codes "host";
  pipelines_dir = default_pipelines_dir;
}

load_config-IsValid_example : IsValid complete_config
unfolding load_config configure complete read_token token_of set_token_path set_parallel set_name
    set_dir set_abs set_auths has lookup new_set insert
load_config-IsValid_example =
    load_config-IsValid host (loads config) complete_config (omega arith) refl refl

-- Two commands were registered when `Destroy` counted them, and the second one is gone by now.
abbrev two : Box
two = begin_destroy (register (start (register (start new_box 5) 5) 6) 6)

abbrev one : Box
one = unregister (end_wait two 6) 6

one_reached : Reach new_box one
unfolding start register begin_destroy end_wait
one_reached =
    next
      (next
        (next
          (next
            (next (next (next here (starts 5 refl refl)) (registers 5 refl refl))
              (starts 6 refl refl))
            (registers 6 refl refl))
          (begins_destroy refl refl))
        (waits 6 refl refl))
      (unregisters 6 refl refl)

destroy_kills_example :
    ((2 < length one.processes)
      × ((end_destroy one 2).killed ≡ one.killed)
      × ((end_destroy one 2).panicked ≡ true))
    ⊎ ((length one.processes ≤ 2)
        × (is_one_of 5 (end_destroy one 2).killed ≡ true)
        × ((end_destroy one 2).panicked ≡ ltb (length one.processes) 2))
unfolding start register begin_destroy end_wait unregister put insert
destroy_kills_example = destroy_kills 5 2 one_reached refl refl refl

one_panics : ((end_destroy one 2).killed ≡ 5 ∷ []) × ((end_destroy one 2).panicked ≡ true)
unfolding end_destroy unregister discard remove end_wait begin_destroy register put insert start
one_panics = (refl, refl)

abbrev decoder : Decoder
decoder = record {
  run = λ contents. decoded (pos 7);
  cancel = λ contents. decoded (pos 7 ∷ []);
  terminate = λ contents. decoded [];
}

abbrev response : TaskResponse
response = record { kind = codes "pipeline_cancel"; contents = codes "{}" }

get_task_serves_example :
    (do_request (request_of client (gets_task [] true [])) answering ≡ none)
    × IsTask decoder response (pipeline_cancel (pos 7 ∷ []))
unfolding get_task do_request request_of
get_task_serves_example =
    get_task_serves client [] true [] answering decoder response (pipeline_cancel (pos 7 ∷ [])) refl
