-- ===== src/Pipeline/Fail/Marks.antt =====
-- What `fail` sends, in full.
use snake_runner.Base.{
  ℕ, ℤ, Text, List, [], ◌∷◌, ◌++◌, map, append_assoc, append-nil, none, some, true, false, not,
  ◌==◌, keep, All, ◌≡◌, ◌≢◌, refl, sym, ◌∙◌, arith, int_eq, int_beq_iff, text_eq,
}
use snake_runner.Snake.{PipelineJob}
use snake_runner.Status.{Status}
use snake_runner.Client.{Call, Log, Server, update_pipeline, update_job}
use snake_runner.Pipeline.Fail.{fail_all_jobs, Scan, fail_case, mark, fail_loop, fail}

-- The jobs of other stages than `stage`.
abbrev pub of_other_stages : Text → List PipelineJob → List PipelineJob
of_other_stages stage = keep (λ job. not (job.stage == stage))

module _ (server : Server) (pipeline_id : ℤ) where
  abbrev pub skips : PipelineJob → Call
  skips job = update_job pipeline_id job.id Status.skipped none none

  abbrev pub fails : ℕ → PipelineJob → Call
  fails now job = update_job pipeline_id job.id Status.failed none (some now)

  loop_before :
      (failed_id : ℤ) (now : ℕ) (s : Scan) (before rest : List PipelineJob) (log : Log)
      → failed_id ≢ fail_all_jobs
      → s.found ≡ false
      → All (λ job. job.id ≢ failed_id) before
      → fail_loop server pipeline_id failed_id now s (before ++ rest) log
        ≡ fail_loop server pipeline_id failed_id now s rest log
  unfolding fail_loop fail_case mark
  loop_before failed_id now s [] rest log h f d = refl
  loop_before failed_id now s (job ∷ before) rest log h f d = ground (
    arith,
    int_beq_iff failed_id fail_all_jobs,
    int_beq_iff job.id failed_id,
    loop_before failed_id now s before rest log h f d.1,
  )

  loop_after :
      (failed_id : ℤ) (now : ℕ) (s : Scan) (after : List PipelineJob) (log : Log)
      → failed_id ≢ fail_all_jobs
      → s.found ≡ true
      → All (λ job. job.id ≢ failed_id) after
      → fail_loop server pipeline_id failed_id now s after log
        ≡ log ++ map skips (of_other_stages s.failed_stage after)
  unfolding fail_loop fail_case mark
  loop_after failed_id now s [] log h f d = sym (append-nil log)
  loop_after failed_id now s (job ∷ after) log h f d = ground (
    arith,
    int_beq_iff failed_id fail_all_jobs,
    int_beq_iff job.id failed_id,
    loop_after failed_id now s after log h f d.1,
    loop_after failed_id now s after (log ++ skips job ∷ []) h f d.1,
    append_assoc log (skips job ∷ []) (map skips (of_other_stages s.failed_stage after)),
  )

  loop_all :
      (now : ℕ) (s : Scan) (jobs : List PipelineJob) (log : Log)
      → fail_loop server pipeline_id fail_all_jobs now s jobs log ≡ log ++ map (fails now) jobs
  unfolding fail_loop fail_case mark
  loop_all now s [] log = sym (append-nil log)
  loop_all now s (job ∷ jobs) log =
      loop_all now s jobs (log ++ fails now job ∷ [])
      ∙ append_assoc log (fails now job ∷ []) (map (fails now) jobs)

  loop_at :
      (job : PipelineJob) (after : List PipelineJob) (log : Log)
      → job.id ≢ fail_all_jobs
      → All (λ other. other.id ≢ job.id) after
      → fail_loop server pipeline_id job.id
          (server.clock log)
          (record { found = false; failed_stage = [] })
          (job ∷ after)
          log
        ≡ log ++ map skips (of_other_stages job.stage after)
  unfolding fail_loop fail_case mark
  loop_at job after log h behind = ground (
    arith,
    int_beq_iff job.id fail_all_jobs,
    int_beq_iff job.id job.id,
    loop_after job.id (server.clock log) (record { found = true; failed_stage = job.stage }) after
        log h refl behind,
  )

  abbrev pub ends : ℕ → Call
  ends now = update_pipeline pipeline_id Status.failed none (some now)

  -- When a job fails whose identifier no other job has and which is not -1, `fail` sends SKIPPED for
  -- the jobs of other stages that stand behind it in the list, in order, and FAILED for the
  -- pipeline; it sends nothing for the jobs in front of it, nor for those of its own stage.
  pub fail_marks :
      (before : List PipelineJob) (job : PipelineJob) (after : List PipelineJob) (log : Log)
      → job.id ≢ fail_all_jobs
      → All (λ other. other.id ≢ job.id) before
      → All (λ other. other.id ≢ job.id) after
      → fail server pipeline_id (before ++ job ∷ after) job.id false log ≡ (
        true,
        log ++ (map skips (of_other_stages job.stage after) ++ ends (server.clock log) ∷ []),
      )
  unfolding fail
  fail_marks before job after log h front behind =
      rw
        (
          loop_before job.id (server.clock log) (record { found = false; failed_stage = [] }) before
              (job ∷ after) log h refl front,
          loop_at job after log h behind,
          append_assoc log,
        )
        refl

  -- When the whole pipeline fails, `fail` sends FAILED with the time for every job, and FAILED for
  -- the pipeline.
  pub fail_marks_all :
      (jobs : List PipelineJob) (log : Log)
      → fail server pipeline_id jobs fail_all_jobs false log
        ≡ (true, log ++ (map (fails (server.clock log)) jobs ++ ends (server.clock log) ∷ []))
  unfolding fail
  fail_marks_all jobs log =
      rw
        (
          loop_all (server.clock log) (record { found = false; failed_stage = [] }) jobs log,
          append_assoc log,
        )
        refl
