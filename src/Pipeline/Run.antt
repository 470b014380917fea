-- ===== src/Pipeline/Run.antt =====
-- `Run` of a pipeline and `prepareVariables`. The sidecar's destruction and the logs have no effect
-- on what the master is told. `decode_auths` is the JSON decoder's error on a DOCKER_AUTH_CONFIG.
use snake_runner.Base.{
  ℤ, Text, text_eq, codes, List, [], ◌∷◌, ◌++◌, concat, Option, none, some, Bool, false, lookup,
  ◌≡◌, refl, ap,
}
use snake_runner.Errors.{Error, format}
use snake_runner.Status.{Status}
use snake_runner.Snake.{PipelineJob}
use snake_runner.Signal.{unset}
use snake_runner.Client.{Call, Log, update_pipeline}
use snake_runner.MapSlice.{Pair, find}
use snake_runner.Pipeline.Split.{split_jobs}
use snake_runner.Pipeline.Fail.{fail, fail_all_jobs}
use snake_runner.Pipeline.Jobs.{World, Shared}
use snake_runner.Pipeline.Jobs.Result.{
  RunJobs, Succeeded, numbers, run_jobs_success, run_jobs_status,
}

abbrev auth_key : Text
auth_key = codes "DOCKER_AUTH_CONFIG"

abbrev decode_or : (Text → Option Error) → Text → Text → Option Error
decode_or decode_auths message raw = elim (decode_auths raw) [
  | none ↦ none
  | some error ↦ some (format error message)
]

abbrev prepare_environment : (Text → Option Error) → List (Text × Text) → Option Error
prepare_environment decode_auths env = elim (lookup auth_key env) [
  | none ↦ none
  | some raw ↦
      decode_or decode_auths
        (codes
          "json: unable to decode DOCKER_AUTH_CONFIG specified as a pipeline environment variable")
        raw
]

-- `prepareVariables`, with the variables of the configuration.
unfoldable pub prepare_variables :
    (Text → Option Error) → Option (List Pair) → List (Text × Text) → Option Error
prepare_variables decode_auths none env = prepare_environment decode_auths env
prepare_variables decode_auths (some pairs) env = elim (find pairs auth_key) [
  | none ↦ prepare_environment decode_auths env
  | some raw ↦
      elim (decode_or decode_auths
        (codes "json: unable to decode DOCKER_AUTH_CONFIG specified on the pipeline level")
        raw.value) [ none ↦ prepare_environment decode_auths env | some error ↦ some error ]
]

module _ (world : World) (decode_auths : Text → Option Error) (env : List (Text × Text))
    (pipeline_id : ℤ) (jobs : List PipelineJob) where
  abbrev running_call : Log → Call
  running_call log = update_pipeline pipeline_id Status.running (some (world.server.clock log)) none

  abbrev pub success_call : Log → Call
  success_call log = update_pipeline pipeline_id Status.success none (some (world.server.clock log))

  -- The state with which `runJobs` starts.
  abbrev begin : Log → Shared
  begin log = record {
    condition = unset;
    result = none;
    once_fail = false;
    log = log ++ running_call log ∷ [];
  }

  abbrev give_up : Bool → Log → Log
  give_up once log = (fail world.server pipeline_id jobs fail_all_jobs once log).1

  abbrev refused_error : Error → Option Error
  refused_error error = some (format error (codes "unable to update pipeline status"))

  -- `RUNNING` is accepted and the variables are prepared; the configuration is not read yet, so it
  -- has no variables.
  abbrev pub Started : Log → Type 0
  Started log =
      (world.server.reply log (running_call log) ≡ none)
      × (prepare_variables decode_auths none env ≡ none)

  abbrev pub Jobs : Log → Status × Option Error → Shared → Type 0
  Jobs log out s = RunJobs world pipeline_id jobs 1 (begin log) (split_jobs jobs) out s

  -- `Run` after the calls of the log: its status, its error, and the calls at its end.
  pub data Run (log : Log) : Option Status → Option Error → Log → Type 0 where
    refused :
        (error : Error)
        → world.server.reply log (running_call log) ≡ some error
        → Run log none (refused_error error) (give_up false (log ++ running_call log ∷ []))
    unprepared :
        (error : Error)
        → world.server.reply log (running_call log) ≡ none
        → prepare_variables decode_auths none env ≡ some error
        → Run log (some Status.failed) (some error) (give_up false (log ++ running_call log ∷ []))
    jobs_failed :
        (status : Status) (error : Error) (s : Shared)
        → Started log
        → Jobs log (status, some error) s
        → Run log (some status) (some error) s.log
    unfinished :
        (status : Status) (error : Error) (s : Shared)
        → Started log
        → Jobs log (status, none) s
        → world.server.reply s.log (success_call s.log) ≡ some error
        → Run log
            (some status)
            (refused_error error)
            (give_up s.once_fail (s.log ++ success_call s.log ∷ []))
    completed :
        (status : Status) (s : Shared)
        → Started log
        → Jobs log (status, none) s
        → world.server.reply s.log (success_call s.log) ≡ none
        → Run log (some status) none (s.log ++ success_call s.log ∷ [])

  -- Where the run of a pipeline returns no error, its status is SUCCESS, the task of every job has
  -- run and succeeded, and the last call that was made is the one that tells the master SUCCESS,
  -- which the master accepted.
  pub run_pipeline_success :
      {log : Log} {status : Option Status} {error : Option Error} {log' : Log}
      → Run log status error log'
      → error ≡ none
      → (status ≡ some Status.success)
        × Succeeded world pipeline_id jobs (numbers 1 (concat (split_jobs jobs)))
        × ((earlier : Log) × (log' ≡ earlier ++ success_call earlier ∷ [])
            × (world.server.reply earlier (success_call earlier) ≡ none))
  run_pipeline_success (refused error r) e = absurd (cc e)
  run_pipeline_success (unprepared error r p) e = absurd (cc e)
  run_pipeline_success (jobs_failed status error s b j) e = absurd (cc e)
  run_pipeline_success (unfinished status error s b j r) e = absurd (cc e)
  run_pipeline_success (completed status s b j r) e = (
    ap some (run_jobs_status world pipeline_id jobs j tt),
    run_jobs_success world pipeline_id jobs j tt refl,
    (s.log, refl, r),
  )
