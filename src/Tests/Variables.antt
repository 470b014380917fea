-- ===== src/Tests/Variables.antt =====
-- The variables of a job whose task, pipeline and job set the same name.
use snake_runner.Base.{
  pos, Text, text_eq, text_differ, codes, List, [], ◌∷◌, ◌++◌, join, none, some, lookup, ◌≡◌, refl,
}
use snake_runner.Snake.{Pipeline}
use snake_runner.Env.{
  Builder, expander, set_expanded, before_job, build, known_hosts_key, git_ssh_key,
}
use snake_runner.Env.Expand.{expand}
use snake_runner.Env.Order.{job_variable_wins, reserved_variables}
use snake_runner.Tests.Jobs.{job_of}

abbrev pipeline : Pipeline
pipeline = record {
  id = pos 7;
  project_id = pos 1;
  repository_id = pos 1;
  commit = codes "0123456789";
  from_commit = [];
  created_at = pos 0;
  updated_at = pos 0;
  status = [];
  error = [];
  filename = codes "snake-ci.yaml";
  runner_id = pos 3;
  ref_type = codes "BRANCH";
  ref_display_id = codes "master";
  pull_request_id = pos 0;
}

abbrev name : Text
name = codes "TARGET"

abbrev builder : Builder
builder = record {
  env = (name, codes "task") ∷ [];
  project_key = codes "P";
  project_name = codes "project";
  project_id = pos 1;
  repository_slug = codes "r";
  repository_name = codes "repository";
  repository_id = pos 1;
  clone_url_ssh = codes "ssh://host/r";
  pull_request = none;
  pipeline = pipeline;
  job = job_of 1;
  config_variables = some (record { key = name; value = codes "pipeline" } ∷ []);
  job_variables = some (record { key = name; value = codes "job-$CI_BRANCH" } ∷ []);
  runner_name = codes "runner";
  version = codes "1";
  git_dir = codes "/git";
  ssh_socket_path = codes "/ssh/ssh-agent.sock";
  ssh_known_hosts_path = codes "/ssh/known_hosts";
}

abbrev no_variables : Text → Text
no_variables key = []

abbrev quoted : List Text → Text
quoted = join (codes " ")

job_variable_wins_example :
    lookup name (build no_variables quoted builder)
    ≡ some (
        expand
          (expander no_variables quoted
            (set_expanded no_variables quoted [] (before_job no_variables quoted builder)))
          (codes "job-$CI_BRANCH"))
job_variable_wins_example =
    job_variable_wins no_variables quoted builder [] [] name (codes "job-$CI_BRANCH") refl tt
      (text_differ git_ssh_key name refl) (text_differ known_hosts_key name refl)

reserved_variables_example :
    (lookup known_hosts_key (build no_variables quoted builder) ≡ some (codes "/ssh/known_hosts"))
    × (lookup git_ssh_key (build no_variables quoted builder)
        ≡ some (
            quoted
              (codes "ssh" ∷ (codes "-oGlobalKnownHostsFile=" ++ codes "/ssh/known_hosts") ∷ [])))
reserved_variables_example = reserved_variables no_variables quoted builder
