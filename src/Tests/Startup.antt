-- ===== src/Tests/Startup.antt =====
-- The start of the scheduler, the factory of the keys, and a job on Docker.
use snake_runner.Base.{
  pos, text_eq, codes, List, [], ◌∷◌, ◌++◌, length, Option, none, some, false, not, keep, ◌≤◌, ◌≡◌,
  refl, ◌⊎◌, ◌↔◌, inl, arith,
}
use snake_runner.Errors.{Error}
use snake_runner.Config.{Pipeline, Job}
use snake_runner.Docker.Containers.{Container, ContainerEngine, Containers}
use snake_runner.Docker.Containers
use snake_runner.Docker.Containers.Cleanup.{is_gone}
use snake_runner.Docker.Execs.{ExecEngine}
use snake_runner.Job.OnDocker.{Client, containers_left, job_leaves_containers}
use snake_runner.Runner.{docker_mode, shell_mode}
use snake_runner.Runner.Valid.{IsValid}
use snake_runner.Probe.{Host, ends_well, start_scheduler}
use snake_runner.Probe.Startup.{DockerReady, ShellReady, configured_starts}
use snake_runner.Sshkey.{
  Key, Attempt, Factory, generates, offers, begins, new_factory, generate, generate_private_key,
  end_generate, goes_on, ends_generate, sends, runs, takes, Reach, here, next,
}
use snake_runner.Sshkey.Order.{factory_in_order}
use snake_runner.Tests.Hosts.{complete_config}
use snake_runner.Tests.Images.{containers, engine, docker, images, new_job}

-- The containers of Tests/Images, of which `a` runs and is ours.
abbrev pub host : Host
host = record {
  windows = false;
  new_client = none;
  info = none;
  look_path = λ name. none;
  ssh_agent = ends_well;
}

valid : IsValid complete_config
valid = record {
  known_mode = inl refl;
  parallel = λ e. absurd (cc e);
  absolute = refl;
  has_path = refl;
  has_master = refl;
  has_token = refl;
}

configured_starts_example :
    (left : Containers) × (error : Option Error) × (start_scheduler host complete_config engine
        containers
      ≡ some (left, error))
    × (((complete_config.mode ≡ docker_mode)
          × ((error ≡ none) ↔ DockerReady host engine)
          × (error ≡ none
              → left
                ≡ keep (λ c. not (is_gone engine (keep Containers.runs containers) c)) containers))
        ⊎ ((complete_config.mode ≡ shell_mode)
            × ((error ≡ none) ↔ ShellReady host)
            × (left ≡ containers)))
configured_starts_example = configured_starts host complete_config 4 engine containers valid refl

abbrev attempt : Attempt
attempt = record {
  generate = none;
  validate = none;
  make_public = none;
  private_pem = codes "private";
  public_line = codes "public";
}

abbrev new_key : Key
new_key = record { private = codes "private"; public = codes "public" }

abbrev fresh : Factory
fresh = record {
  queue = [];
  queue_size = 1;
  interrupted = false;
  phase = begins;
  made = [];
  taken = [];
}

-- One key was taken, and another one is offered.
abbrev offering : Factory
offering = record fresh {
  phase = offers new_key;
  made = new_key ∷ new_key ∷ [];
  taken = new_key ∷ [];
}

abbrev generating : Factory
generating = record fresh { phase = generates }

abbrev first_offer : Factory
first_offer = record fresh { phase = offers new_key; made = new_key ∷ [] }

abbrev queued : Factory
queued = record fresh { queue = new_key ∷ []; made = new_key ∷ [] }

abbrev emptied : Factory
emptied = record fresh { made = new_key ∷ []; taken = new_key ∷ [] }

abbrev regenerating : Factory
regenerating = record emptied { phase = generates }

-- `Run` goes round once, its key is taken, and it generates another one.
offering_reached : Reach fresh offering
unfolding end_generate generate generate_private_key
offering_reached =
    next {g = regenerating}
      (next {g = emptied}
        (next {g = queued}
          (next {g = first_offer}
            (next {g = generating} (next {g = fresh} here (runs (goes_on refl refl refl)))
              (runs (ends_generate attempt refl refl)))
            (runs (sends new_key refl (omega arith) refl)))
          (takes new_key [] refl refl))
        (runs (goes_on refl refl refl)))
      (runs (ends_generate attempt refl refl))

factory_in_order_example :
    ((lost : List Key) × (offering.made ≡ offering.taken ++ (offering.queue ++ lost))
      × (length lost ≤ 1))
    × (length offering.queue ≤ 1)
unfolding new_factory
factory_in_order_example = factory_in_order 1 {f = fresh} {g = offering} refl offering_reached

abbrev job : Job
job = record {
  variables = none;
  stage = [];
  shell = [];
  image = codes "golang";
  commands = codes "make" ∷ codes "make install" ∷ [];
}

abbrev pipeline : Pipeline
pipeline = record {
  variables = none;
  shell = [];
  image = [];
  stages = [];
  jobs = (codes "build", job) ∷ [];
}

abbrev quiet : ExecEngine
quiet = record {
  create = none;
  attach = none;
  copy = none;
  inspect = none;
  exit_code = pos 0;
  output = [];
}

abbrev client : Client
client = record {
  images = images;
  docker = docker;
  engine = record engine { new_id = codes "d" };
  name = new_job.name;
  volumes = new_job.volumes;
  detection = λ container. quiet;
  command = λ container before command. quiet;
}

job_leaves_containers_example : containers_left client containers (codes "golang") ≡ containers
job_leaves_containers_example =
    job_leaves_containers client containers (codes "golang") (refl, (refl, (refl, tt))) refl
