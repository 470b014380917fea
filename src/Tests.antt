-- ===== src/Tests.antt =====
-- The theorems at concrete inputs.
mod Jobs
mod Stages
mod Tasks
mod Secrets
mod JobLogs
mod Logs
mod Files
mod Variables
mod Requests
mod Sidecars
mod Images
mod Hosts
mod Startup
mod Serving
