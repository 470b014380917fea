-- ===== src/Signal.antt =====
-- internal/signal/condition.go. `ok` is 0 until one of the two setters is called.
use snake_runner.Base.{Bool, true, false, Option, none, some}

pub data Condition : Type 0 where
  unset satisfied unsatisfied : Condition

abbrev pub new_condition : Condition
new_condition = unset

unfoldable pub satisfy : Condition → Condition
satisfy c = satisfied

unfoldable pub unsatisfy : Condition → Condition
unsatisfy c = unsatisfied

-- `none` while `Wait` blocks.
unfoldable pub wait : Condition → Option Bool
wait unset = none
wait satisfied = some true
wait unsatisfied = some false
