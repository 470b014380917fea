-- ===== src/Pipeline/Fail.antt =====
-- `fail`: the statuses that are sent to the master when a pipeline fails.
pub mod Marks
use snake_runner.Base.{
  ℕ, zero, ℤ, negsuc, Text, List, [], ◌∷◌, Option, none, some, Bool, true, false, not, ◌&&◌, ◌==◌,
  int_eq, text_eq, if◌then◌else◌,
}
use snake_runner.Snake.{PipelineJob}
use snake_runner.Status.{Status}
use snake_runner.Client.{Call, Log, Server, update_pipeline, update_job, send}

abbrev pub fail_all_jobs : ℤ
fail_all_jobs = negsuc zero

-- The variables of the loop.
pub record Scan : Type 0 where
  pub found : Bool
  pub failed_stage : Text

-- The `switch`: the loop's variables after it, and the status and the time to send, or none of
-- these where it continues.
unfoldable pub fail_case :
    (failed_id : ℤ) (now : ℕ) → Scan → PipelineJob → Scan × Option (Status × Option ℕ)
fail_case failed_id now s job =
    if failed_id == fail_all_jobs
    then (s, some (Status.failed, some now))
    else if job.id == failed_id
    then (record { found = true; failed_stage = job.stage }, none)
    else if not s.found
    then (s, none)
    else if s.found && job.stage == s.failed_stage
    then (s, none)
    else (s, some (Status.skipped, none))

module _ (server : Server) (pipeline_id : ℤ) where
  -- The call of `updateJob`; an error is logged only.
  unfoldable pub mark : PipelineJob → Option (Status × Option ℕ) → Log → Log
  mark job none log = log
  mark job (some (status, finished)) log =
      (send server (update_job pipeline_id job.id status none finished) log).1

  unfoldable pub fail_loop : ℤ → ℕ → Scan → List PipelineJob → Log → Log
  unfolding fail_case mark
  fail_loop failed_id now s [] log = log
  fail_loop failed_id now s (job ∷ jobs) log =
      let (s', result) = fail_case failed_id now s job in
      fail_loop failed_id now s' jobs (mark job result log)

  -- The flag is `onceFail`.
  unfoldable pub fail : List PipelineJob → ℤ → Bool → Log → Bool × Log
  unfolding fail_loop
  fail jobs failed_id once log =
      let now = server.clock log in
      let marked = fail_loop failed_id now (record { found = false; failed_stage = [] }) jobs log in
      if once then (once, log) else (
        true,
        (send server (update_pipeline pipeline_id Status.failed none (some now)) marked).1,
      )
