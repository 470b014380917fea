-- ===== src/Status.antt =====
-- internal/status/status.go.
use snake_runner.Base.{Bool, true, false}

pub data Status : Type 0 where
  pending queued running success failed canceled skipped unknown : Status

unfoldable pub is_final_status : Status → Bool
is_final_status success = true
is_final_status failed = true
is_final_status canceled = true
is_final_status skipped = true
is_final_status _ = false
