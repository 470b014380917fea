-- ===== src/Pipeline/Split.antt =====
-- `splitJobs`: the jobs grouped by stage, the stages in the order of their first job.
pub mod Groups
use snake_runner.Base.{
  Text, List, [], ◌∷◌, ◌++◌, map, Bool, true, false, ◌==◌, text_eq, ◌||◌, keep, if◌then◌else◌,
}
use snake_runner.Snake.{PipelineJob}

-- The inner loop with `found`.
unfoldable pub has_stage : Text → List Text → Bool
has_stage stage [] = false
has_stage stage (s ∷ stages) = s == stage || has_stage stage stages

unfoldable pub add_stage : List Text → PipelineJob → List Text
add_stage stages job = if has_stage job.stage stages then stages else stages ++ job.stage ∷ []

unfoldable pub collect_stages : List Text → List PipelineJob → List Text
unfolding has_stage add_stage
collect_stages stages [] = stages
collect_stages stages (job ∷ jobs) = collect_stages (add_stage stages job) jobs

unfoldable pub stage_jobs : List PipelineJob → Text → List PipelineJob
stage_jobs jobs stage = keep (λ job. job.stage == stage) jobs

unfoldable pub split_jobs : List PipelineJob → List (List PipelineJob)
unfolding collect_stages stage_jobs
split_jobs jobs = map (stage_jobs jobs) (collect_stages [] jobs)
