-- ===== src/Client.antt =====
-- The calls that a pipeline makes to the master: UpdatePipeline and UpdateJob of
-- internal/api/client.go. The master is outside: it answers each call from all calls so far.
use snake_runner.Base.{ℕ, ℤ, List, [], ◌∷◌, ◌++◌, Option}
use snake_runner.Errors.{Error}
use snake_runner.Status.{Status}

-- The identifiers, the status, and the times of the start and the finish.
pub data Call : Type 0 where
  update_pipeline : ℤ → Status → Option ℕ → Option ℕ → Call
  update_job : ℤ → ℤ → Status → Option ℕ → Option ℕ → Call

-- The calls made, the oldest first.
abbrev pub Log : Type 0
Log = List Call

-- What the master replies, and the time that `utils.Now` reads, after the calls so far.
pub record Server : Type 0 where
  pub reply : Log → Call → Option Error
  pub clock : Log → ℕ

abbrev pub send : Server → Call → Log → Option Error × Log
send server call log = (server.reply log call, log ++ call ∷ [])
