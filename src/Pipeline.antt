-- ===== src/Pipeline.antt =====
-- internal/pipeline/pipeline.go: one run of a pipeline.
pub mod Split
pub mod Fail
pub mod Jobs
pub mod Run
pub mod Building
pub mod Reading
