-- ===== src/Syncdo.antt =====
-- internal/syncdo/syncdo.go: an action that is done once. `Do` holds the mutex from its first to its
-- last line, so it is one step.
use snake_runner.Base.{
  ℕ, suc, List, [], ◌∷◌, map, Option, none, Bool, true, false, if◌then◌else◌, ◌≡◌, refl,
}
use snake_runner.Errors.{Error}

-- `runs` counts the calls of the functions.
pub record Action : Type 0 where
  pub done : Bool
  pub err : Option Error
  pub runs : ℕ

abbrev pub new_action : Action
new_action = record { done = false; err = none; runs = 0 }

-- `Do`, where the function would return `result`.
unfoldable pub do_once : Action → Option Error → Action × Option Error
do_once action result =
    if action.done
    then (action, action.err)
    else (record { done = true; err = result; runs = suc action.runs }, result)

-- One call after the other.
unfoldable pub do_each : Action → List (Option Error) → Action × List (Option Error)
unfolding do_once
do_each action [] = (action, [])
do_each action (result ∷ results) =
    let (action', returned) = do_once action result in
    let (last, more) = do_each action' results in (last, returned ∷ more)

abbrev after_first : Option Error → Action
after_first result = record { done = true; err = result; runs = 1 }

do_each_done :
    (first : Option Error) (results : List (Option Error))
    → do_each (after_first first) results ≡ (after_first first, map (λ r. first) results)
unfolding do_each
do_each_done first [] = refl
do_each_done first (result ∷ results) = rw (do_each, do_each_done first results) refl

-- Of the functions given to `Do`, one after the other, the first alone is run, and every call
-- returns its error.
pub do_each_lem :
    (first : Option Error) (results : List (Option Error))
    → do_each new_action (first ∷ results) ≡ (after_first first, first ∷ map (λ r. first) results)
unfolding do_each
do_each_lem first results = rw (do_each, do_each_done first results) refl
