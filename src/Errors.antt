-- ===== src/Errors.antt =====
-- The errors that the runner passes on, and `IsCanceled` of internal/utils/utils.go.
-- karma-go's errors carry a list of reasons; a reason that is no error is a plain text, which is
-- never canceled. `karma.Contains` finds only what the recursion on the reasons finds.
use snake_runner.Base.{Bool, true, false, ◌||◌, Text}

mutual
  pub data Error : Type 0 where
    -- `context.Canceled`
    canceled : Error
    -- an error of Docker's client for which `errdefs.IsCancelled` holds
    docker_cancelled : Error
    message : Text → Error
    -- `karma.Karma`
    karma : Text → Reasons → Error
    -- an error with `Unwrap`, and one with `Cause`
    unwraps : Error → Error
    causes : Error → Error

  pub data Reasons : Type 0 where
    no_reasons : Reasons
    reason : Error → Reasons → Reasons

unfoldable mutual
  pub is_canceled : Error → Bool
  is_canceled canceled = true
  is_canceled docker_cancelled = true
  is_canceled (message text) = false
  is_canceled (karma text reasons) = any_canceled reasons
  is_canceled (unwraps error) = is_canceled error
  is_canceled (causes error) = is_canceled error

  pub any_canceled : Reasons → Bool
  any_canceled no_reasons = false
  any_canceled (reason error rest) = is_canceled error || any_canceled rest

-- `karma.Format(err, text)`
abbrev pub format : Error → Text → Error
format error text = karma text (reason error no_reasons)
