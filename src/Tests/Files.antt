-- ===== src/Tests/Files.antt =====
-- A configuration of one job, and the job's run.
use snake_runner.Base.{
  Text, text_eq, codes, List, [], ◌∷◌, none, some, text_differ, lookup, remove, ◌≡◌, ◌≢◌, refl,
}
use snake_runner.MapSlice.Nodes.{Node, node, nil, scalar}
use snake_runner.Config.{
  Job, Pipeline, Decoder, unmarshal, read_image, read_stages, read_rest, read_jobs, read_variables,
}
use snake_runner.Config.Fields.{unmarshal_takes_for_job}
use snake_runner.Job.{
  get_image, Surroundings, get_docker_auth_config, detect_shell, exec_commands, exec_with,
  use_container, run_container, run,
}
use snake_runner.Job.Container.{commands_of, AllPass, run_success}

abbrev test_job : Job
test_job = record {
  variables = none;
  stage = codes "test";
  shell = codes "sh";
  image = [];
  commands = codes "go vet" ∷ codes "go test" ∷ [];
}

abbrev node_of : Text → Node
node_of value = node scalar value 1 1 nil

abbrev raw : List (Text × Node)
raw = (codes "stages", node_of (codes "[test]")) ∷ (codes "shell", node_of (codes "bash")) ∷ []

-- A decoder to which every node is a job.
abbrev pub lenient : Decoder
lenient = record {
  fields = λ contents. some raw;
  text = λ n. none;
  texts = λ n. some (codes "test" ∷ []);
  job = λ n. some test_job;
}

-- The shell of the pipeline is taken for a job.
unmarshal_takes_for_job_example :
    (some test_job ≢ none) × (lookup (codes "shell") (unmarshal lenient []).0.jobs ≢ none)
unfolding unmarshal read_image read_stages read_rest read_jobs read_variables lookup remove
unmarshal_takes_for_job_example =
    unmarshal_takes_for_job lenient [] raw (codes "shell") (node_of (codes "bash")) refl refl
      (text_differ (codes "shell") (codes "image") refl)
      (text_differ (codes "shell") (codes "stages") refl) refl

abbrev pipeline : Pipeline
pipeline = record {
  variables = none;
  shell = [];
  image = [];
  stages = codes "test" ∷ [];
  jobs = (codes "unit", test_job) ∷ [];
}

-- Everything works.
abbrev calm : Surroundings
calm = record {
  expand = λ t. t;
  decode_auths = λ t. none;
  prepare = λ image. none;
  create = λ image. (codes "c", none);
  detect_shell = λ container. (codes "bash", none);
  exec = λ container before command. none;
}

run_success_example :
    (job : Job) × (lookup (codes "unit") pipeline.jobs ≡ some job)
    × (let image = calm.expand (get_image pipeline job) in
        (calm.prepare image ≡ none)
        × ((calm.create image).1 ≡ none)
        × AllPass calm (calm.create image).0 [] job.commands)
    × (commands_of (run calm pipeline (codes "unit")).0 ≡ job.commands)
unfolding run run_container use_container exec_with exec_commands detect_shell
    get_docker_auth_config lookup
run_success_example = run_success calm pipeline (codes "unit") refl
