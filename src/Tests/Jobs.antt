-- ===== src/Tests/Jobs.antt =====
-- A pipeline of two jobs in one stage, step by step.
use snake_runner.Base.{
  ℕ, pos, int_beq, codes, lookup, concat, ◌++◌, text_eq, List, [], ◌∷◌, Option, none, some, false,
  if◌then◌else◌, ◌≡◌, refl, ◌⊎◌,
}
use snake_runner.Errors.{Error, canceled}
use snake_runner.Status.{Status}
use snake_runner.Snake.{PipelineJob}
use snake_runner.Client.{Call, update_pipeline, update_job, Log, Server}
use snake_runner.Signal.{unset, satisfied}
use snake_runner.Pipeline.Jobs.{
  succeeds, World, ready, preparing, running, finishing, returned, gone, Worker, Shared, advance,
  Stage, spawn, IsDone, Step, step, Reach, here, next,
}
use snake_runner.Pipeline.Jobs.Progress.{first_stage_progress}
use snake_runner.Pipeline.Jobs.Hang.{first_stage_hangs}
use snake_runner.Pipeline.Jobs.Result.{
  RunJobs, all_passed, stage_passed, Succeeded, numbers, run_jobs_success,
}
use snake_runner.Pipeline.Split.{split_jobs, collect_stages, add_stage, has_stage, stage_jobs}
use snake_runner.Pipeline.Run.{
  Run, completed, prepare_variables, success_call, run_pipeline_success,
}

abbrev pub job_of : ℕ → PipelineJob
job_of n = record {
  id = pos n;
  pipeline_id = pos 7;
  project_id = pos 1;
  repository_id = pos 1;
  commit = [];
  created_at = pos 0;
  updated_at = pos 0;
  stage = codes "build";
  name = [];
  status = [];
  runner_id = pos 1;
}

abbrev both : List PipelineJob
both = job_of 1 ∷ job_of 2 ∷ []

abbrev pub quiet : Server
quiet = record { reply = λ log call. none; clock = λ log. 5 }

-- The master refuses every update of job 1.
abbrev pub refuse : Call → Option Error
refuse (update_pipeline id status started finished) = none
refuse (update_job pipeline id status started finished) =
    if int_beq id (pos 1) then some canceled else none

abbrev refusing : Server
refusing = record { reply = λ log call. refuse call; clock = λ log. 5 }

abbrev world_of : Server → World
world_of server = record {
  server = server;
  config = succeeds;
  task = λ index. succeeds;
  terminated = λ index. false;
}

abbrev begin : Shared
begin = record { condition = unset; result = none; once_fail = false; log = [] }

abbrev first : Worker
first = record { index = 1; job = job_of 1; phase = ready }

abbrev second : Worker
second = record { index = 2; job = job_of 2; phase = ready }

abbrev runs_2 : Call
runs_2 = update_job (pos 7) (pos 2) Status.running (some 5) none

abbrev second_waits : Stage
second_waits = record {
  shared = record begin { log = runs_2 ∷ [] };
  workers = first ∷ record second { phase = preparing } ∷ [];
}

second_starts :
    Reach
      (world_of quiet)
      (pos 7)
      both
      (record { shared = begin; workers = spawn 1 both })
      1
      second_waits
unfolding spawn advance
second_starts = next here (
    step (first ∷ []) second [] second_waits.shared (record second { phase = preparing }) refl refl
      refl)

first_stage_progress_example :
    IsDone second_waits.workers ⊎ ((u : Stage) × Step (world_of quiet) (pos 7) both second_waits u)
first_stage_progress_example =
    first_stage_progress (world_of quiet) (pos 7) both (job_of 1) refl (λ log time. refl) begin
      (job_of 2 ∷ []) 1 second_waits second_starts

second_starts_alone :
    Reach
      (world_of refusing)
      (pos 7)
      both
      (record { shared = begin; workers = spawn 1 both })
      1
      second_waits
unfolding spawn advance
second_starts_alone = next here (
    step (first ∷ []) second [] second_waits.shared (record second { phase = preparing }) refl refl
      refl)

first_stage_hangs_example : ¬ IsDone second_waits.workers
first_stage_hangs_example =
    first_stage_hangs (world_of refusing) (pos 7) both (job_of 1) (job_of 2)
      (λ log time. (canceled, refl)) (λ log time. refl) begin [] 1 second_waits refl
      second_starts_alone

-- The first job alone, from its start to its end, after the pipeline's own update.
abbrev runs_7 : Call
runs_7 = update_pipeline (pos 7) Status.running (some 5) none

abbrev started : Shared
started = record begin { log = runs_7 ∷ [] }

abbrev runs_1 : Call
runs_1 = update_job (pos 7) (pos 1) Status.running (some 5) none

abbrev passes_1 : Call
passes_1 = update_job (pos 7) (pos 1) Status.success none (some 5)

abbrev shared_1 : Shared
shared_1 = record begin { log = runs_7 ∷ runs_1 ∷ [] }

abbrev shared_2 : Shared
shared_2 = record shared_1 { condition = satisfied }

abbrev shared_3 : Shared
shared_3 = record shared_2 { log = runs_7 ∷ runs_1 ∷ passes_1 ∷ [] }

abbrev ended : Stage
ended = record {
  shared = shared_3;
  workers = record first { phase = gone Status.success none } ∷ [];
}

one_job :
    Reach
      (world_of quiet)
      (pos 7)
      (job_of 1 ∷ [])
      (record { shared = started; workers = spawn 1 (job_of 1 ∷ []) })
      5
      ended
unfolding spawn advance
one_job =
    next
      (next
        (next
          (next
            (next here
              (step [] first [] shared_1 (record first { phase = preparing }) refl refl refl))
            (step [] (record first { phase = preparing }) [] shared_2
              (record first { phase = running }) refl refl refl))
          (step [] (record first { phase = running }) [] shared_2
            (record first { phase = finishing Status.success none }) refl refl refl))
        (step [] (record first { phase = finishing Status.success none }) [] shared_3
          (record first { phase = returned Status.success none }) refl refl refl))
      (step [] (record first { phase = returned Status.success none }) [] shared_3
        (record first { phase = gone Status.success none }) refl refl refl)

abbrev passes :
    RunJobs
      (world_of quiet)
      (pos 7)
      (job_of 1 ∷ [])
      1
      started
      ((job_of 1 ∷ []) ∷ [])
      (Status.success, none)
      shared_3
passes =
    stage_passed 1 started (job_of 1 ∷ []) [] 5 ended (Status.success, none) shared_3 one_job
      (refl, tt) refl (all_passed 2 shared_3)

run_jobs_success_example : Succeeded (world_of quiet) (pos 7) (job_of 1 ∷ []) (1 ∷ [])
run_jobs_success_example = run_jobs_success (world_of quiet) (pos 7) (job_of 1 ∷ []) passes tt refl

abbrev ends_7 : Call
ends_7 = update_pipeline (pos 7) Status.success none (some 5)

pipeline_passes :
    Run
      (world_of quiet)
      (λ raw. none)
      []
      (pos 7)
      (job_of 1 ∷ [])
      []
      (some Status.success)
      none
      (runs_7 ∷ runs_1 ∷ passes_1 ∷ ends_7 ∷ [])
unfolding prepare_variables lookup split_jobs collect_stages add_stage has_stage stage_jobs
pipeline_passes = completed Status.success shared_3 (refl, refl) passes refl

run_pipeline_success_example :
    (some Status.success ≡ some Status.success)
    × Succeeded
        (world_of quiet)
        (pos 7)
        (job_of 1 ∷ [])
        (numbers 1 (concat (split_jobs (job_of 1 ∷ []))))
    × ((earlier : Log) × (runs_7 ∷ runs_1 ∷ passes_1 ∷ ends_7 ∷ []
          ≡ earlier
            ++ success_call (world_of quiet) (λ raw. none) [] (pos 7) (job_of 1 ∷ []) earlier ∷ [])
        × (quiet.reply earlier
              (success_call (world_of quiet) (λ raw. none) [] (pos 7) (job_of 1 ∷ []) earlier)
            ≡ none))
run_pipeline_success_example =
    run_pipeline_success (world_of quiet) (λ raw. none) [] (pos 7) (job_of 1 ∷ []) pipeline_passes
      refl
