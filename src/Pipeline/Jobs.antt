-- ===== src/Pipeline/Jobs.antt =====
-- `runJobs`, `runJob` and `processJob`: the jobs of a stage run in goroutines, one worker each, and
-- the stage ends when all workers are done. A worker's steps are the stretches of its code between
-- two points where another worker can come in; the calls that `fail` makes are one step.
pub mod Progress
pub mod Hang
pub mod Result
use snake_runner.Base.{
  ℕ, zero, suc, ◌+◌, ℤ, Text, codes, List, [], ◌∷◌, ◌++◌, Option, none, some, Bool, true, false,
  nat_beq, ◌≡◌, if◌then◌else◌,
}
use snake_runner.Errors.{Error, is_canceled, format}
use snake_runner.Status.{Status}
use snake_runner.Snake.{PipelineJob}
use snake_runner.Client.{Log, Server, update_job, send}
use snake_runner.Signal.{Condition, satisfy, unsatisfy, wait}
use snake_runner.Pipeline.Fail.{fail}

-- How a call of the job's code ends: `readConfig`, or `task.Run`.
pub data Outcome : Type 0 where
  succeeds : Outcome
  errs : Error → Outcome
  panics : Error → Outcome

-- What the workers meet: the master, the outcome of `readConfig`, that of `task.Run` for each
-- index, and whether the runner is being terminated when `task.Run` returns.
pub record World : Type 0 where
  pub server : Server
  pub config : Outcome
  pub task : ℕ → Outcome
  pub terminated : ℕ → Bool

pub data Phase : Type 0 where
  -- before `updateJob(RUNNING)`
  ready : Phase
  -- in `processJob`, before the config is known
  preparing : Phase
  -- in `task.Run`
  running : Phase
  -- before the update with the final status
  finishing : Status → Option Error → Phase
  -- after `runJob`, before `once.Do`
  returned : Status → Option Error → Phase
  -- `workers.Done()`
  gone : Status → Option Error → Phase

pub record Worker : Type 0 where
  pub index : ℕ
  pub job : PipelineJob
  pub phase : Phase

-- What the workers share: `configCond`, the variables that `once` guards, `onceFail`, and the
-- calls made.
pub record Shared : Type 0 where
  pub condition : Condition
  pub result : Option (Status × Error)
  pub once_fail : Bool
  pub log : Log

-- The status and the error of `processJob` after `task.Run`.
unfoldable pub classify : Bool → Outcome → Status × Option Error
classify terminated succeeds = (Status.success, none)
classify terminated (errs error) =
    if is_canceled error
    then if terminated then (Status.failed, some error) else (Status.canceled, some error)
    else (Status.failed, some error)
classify terminated (panics error) = (Status.failed, some error)

-- The error that `runJob` returns.
abbrev wrap : Option Error → Option Error
wrap none = none
wrap (some error) = some (format error (codes "an error occurred during job running"))

module _ (world : World) (pipeline_id : ℤ) (jobs : List PipelineJob) where
  -- `updateJob(RUNNING)`.
  unfoldable pub start_job : Shared → Worker → Shared × Worker
  start_job s w =
      let (error, log) =
        send world.server
          (update_job pipeline_id w.job.id Status.running (some (world.server.clock s.log)) none)
          s.log in
      (
        record s { log = log },
        elim error [
          | none ↦ record w { phase = preparing }
          | some e ↦ record w {
            phase = returned Status.failed (some (format e (codes "unable to update job status")));
          }
        ],
      )

  -- The worker with index 1 reads the config; the others wait for it.
  unfoldable pub read_config : Outcome → Shared → Worker → Shared × Worker
  read_config succeeds s w =
      (record s { condition = satisfy s.condition }, record w { phase = running })
  read_config (errs error) s w = (
    record s { condition = unsatisfy s.condition },
    record w {
      phase = finishing Status.failed (some (format error (codes "unable to read config file")));
    },
  )
  read_config (panics error) s w = (s, record w { phase = finishing Status.failed (some error) })

  unfoldable pub prepare_job : Shared → Worker → Option (Shared × Worker)
  unfolding read_config satisfy unsatisfy wait
  prepare_job s w =
      if nat_beq w.index 1 then some (read_config world.config s w) else elim (wait s.condition) [
        | none ↦ none
        | some satisfied ↦ some (s, record w { phase = running })
      ]

  unfoldable pub run_task : Shared → Worker → Shared × Worker
  unfolding classify
  run_task s w =
      let (status, error) = classify (world.terminated w.index) (world.task w.index) in
      (s, record w { phase = finishing status error })

  -- The update with the final status; its error is logged only.
  unfoldable pub finish_job : Status → Option Error → Shared → Worker → Shared × Worker
  finish_job status error s w = (
    record s {
      log =
          (send world.server
            (update_job pipeline_id w.job.id status none (some (world.server.clock s.log)))
            s.log).1;
    },
    record w { phase = returned status (wrap error) },
  )

  -- `once.Do`: the first error is the result of the stage, and fails the pipeline.
  unfoldable pub report : Status → Option Error → Shared → Worker → Shared × Worker
  report status none s w = (s, record w { phase = gone status none })
  report status (some error) s w =
      let (once', log') = fail world.server pipeline_id jobs w.job.id s.once_fail s.log in
      (
        elim s.result [
          | none ↦ record s { result = some (status, error); once_fail = once'; log = log' }
          | some first ↦ s
        ],
        record w { phase = gone status (some error) },
      )

  -- One step of a worker: `none` where it blocks, or is gone.
  unfoldable pub advance_at : Phase → Shared → Worker → Option (Shared × Worker)
  unfolding start_job prepare_job run_task finish_job report
  advance_at ready s w = some (start_job s w)
  advance_at preparing s w = prepare_job s w
  advance_at running s w = some (run_task s w)
  advance_at (finishing status error) s w = some (finish_job status error s w)
  advance_at (returned status error) s w = some (report status error s w)
  advance_at (gone status error) s w = none

  unfoldable pub advance : Shared → Worker → Option (Shared × Worker)
  unfolding advance_at
  advance s w = advance_at w.phase s w

pub record Stage : Type 0 where
  pub shared : Shared
  pub workers : List Worker

-- The workers of a stage, numbered from `index` on.
unfoldable pub spawn : ℕ → List PipelineJob → List Worker
spawn index [] = []
spawn index (job ∷ rest) =
    record { index = index; job = job; phase = ready } ∷ spawn (index + 1) rest

abbrev pub is_gone : Phase → Bool
is_gone (gone status error) = true
is_gone _ = false

-- `workers.Wait()` returns.
abbrev pub IsDone : List Worker → Type 0
IsDone [] = Unit
IsDone (w ∷ ws) = (is_gone w.phase ≡ true) × IsDone ws

module _ (world : World) (pipeline_id : ℤ) (jobs : List PipelineJob) where
  -- Any worker that can go on does.
  pub data Step (s t : Stage) : Type 0 where
    step :
        (before : List Worker) (w : Worker) (after : List Worker) (shared : Shared) (w' : Worker)
        → s.workers ≡ before ++ w ∷ after
        → advance world pipeline_id jobs s.shared w ≡ some (shared, w')
        → t ≡ record { shared = shared; workers = before ++ w' ∷ after }
        → Step s t

  -- `t` is reached from `s` in so many steps.
  pub data Reach (s : Stage) : ℕ → Stage → Type 0 where
    here : Reach s zero s
    next : {n : ℕ} {t u : Stage} → Reach s n t → Step t u → Reach s (suc n) u
