-- ===== src/Docker.antt =====
-- internal/executor/docker: the executor that runs containers. The Docker client is outside; each
-- part's `…Engine` record says how the calls of it end.
pub mod Images
pub mod Auths
pub mod Pulls
pub mod Execs
pub mod Containers
