-- ===== src/Snake.antt =====
-- The pipeline and its jobs as the master describes them: internal/snake.
use snake_runner.Base.{ℤ, Text}

pub record Pipeline : Type 0 where
  pub id : ℤ
  pub project_id : ℤ
  pub repository_id : ℤ
  pub commit : Text
  pub from_commit : Text
  pub created_at : ℤ
  pub updated_at : ℤ
  pub status : Text
  pub error : Text
  pub filename : Text
  pub runner_id : ℤ
  pub ref_type : Text
  pub ref_display_id : Text
  pub pull_request_id : ℤ

pub record PipelineJob : Type 0 where
  pub id : ℤ
  pub pipeline_id : ℤ
  pub project_id : ℤ
  pub repository_id : ℤ
  pub commit : Text
  pub created_at : ℤ
  pub updated_at : ℤ
  pub stage : Text
  pub name : Text
  pub status : Text
  pub runner_id : ℤ
