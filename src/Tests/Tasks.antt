-- ===== src/Tests/Tasks.antt =====
-- The scheduler on two short histories: one pipeline and the shutdown, and the end of the runner.
use snake_runner.Base.{
  ℕ, ◌≤◌, ℤ, pos, int_eq, lookup, insert, remove, List, [], ◌∷◌, none, some, true, All, ◌≡◌, ◌≢◌,
  refl, ◌⊎◌, inl, inr,
}
use snake_runner.SafeMap.{delete, range}
use snake_runner.Scheduler.{
  Key, running, Run, Request, pipeline_run, runner_terminate, Reply, no_task, task, checking,
  fetching, replying, sleeping, suspended, ended, Scheduler, check_context, serve_task, end_task,
  ask, serve, stop, collect, cancel_next,
}
use snake_runner.Scheduler.Steps.{
  initial, Step, generates, looks, asks, serves, wakes, stops, collects, cancels, Reach, start,
  next,
}
use snake_runner.Scheduler.Counter.{active, pipelines_limited, Terminates-once}
use snake_runner.Scheduler.KeySets.{DistinctKeys}
use snake_runner.Scheduler.Keys.{FreshKeys, keys_differ}
use snake_runner.Scheduler.Cancels.Entries.{IsCanceled}
use snake_runner.Scheduler.Cancels.{FreshIds, shutdown_cancels_all}

abbrev key_of : ℕ → Key
key_of n = record { private = n ∷ []; public = n ∷ [] }

-- The master sends pipeline 9 to a scheduler without pipelines that asks for one.
abbrev Master : Scheduler → Request → Reply → Type 0
Master s request reply =
    (reply ≡ task (pipeline_run (pos 9))) × (request.query_pipeline ≡ true) × (s.runs ≡ [])

-- The factory generates key 1, and only into an unused scheduler.
abbrev Factory : Scheduler → Key → Type 0
Factory s key = (key ≡ key_of 1) × (s.ssh_key ≡ none) × (s.queue ≡ []) × (s.runs ≡ [])

abbrev Path1 : Scheduler → Type 0
Path1 = Reach (pos 1) Master Factory

abbrev s1 : Scheduler
s1 = record initial { queue = key_of 1 ∷ [] }

abbrev looked_1 : Scheduler
looked_1 = record s1 { loop = fetching }

abbrev asked : Request
asked = record { running_pipelines = []; query_pipeline = true; ssh_key = 1 ∷ [] }

abbrev s2 : Scheduler
s2 = record initial { loop = replying; ssh_key = some (key_of 1); pending = some asked }

abbrev run_9 : Run
run_9 = record { id = pos 9; ctx = 0; key = key_of 1; phase = running }

abbrev s3 : Scheduler
s3 = record initial {
  pipelines_map = (pos 9, tt) ∷ [];
  cancels = (pos 9, 0) ∷ [];
  pipelines = pos 1;
  next_ctx = 1;
  alive = true;
  runs = run_9 ∷ [];
}

abbrev s4 : Scheduler
s4 = record s3 { context_done = true }

abbrev looked_4 : Scheduler
looked_4 = record s4 { loop = ended }

abbrev s5 : Scheduler
s5 = record looked_4 { shutdown_ids = some (pos 9 ∷ []) }

abbrev s6 : Scheduler
s6 = record looked_4 { shutdown_ids = some []; canceled = 0 ∷ []; cancels = []; pipelines_map = [] }

abbrev Step1 : Scheduler → Scheduler → Type 0
Step1 = Step (pos 1) Master Factory

generates_1 : Step1 initial s1
generates_1 = generates (key_of 1) (refl, refl, refl, refl) refl

looks_1 : Step1 s1 looked_1
unfolding check_context
looks_1 = looks refl refl

asks_2 : Step1 looked_1 s2
unfolding ask range
asks_2 = asks refl refl

serves_3 : Step1 s2 s3
unfolding serve insert
serves_3 =
    serves asked (key_of 1) (task (pipeline_run (pos 9))) refl refl refl (refl, refl, refl) refl

stops_4 : Step1 s3 s4
unfolding stop
stops_4 = stops refl

looks_4 : Step1 s4 looked_4
unfolding check_context
looks_4 = looks refl refl

collects_5 : Step1 looked_4 s5
unfolding collect range
collects_5 = collects refl refl refl refl

cancels_6 : Step1 s5 s6
unfolding cancel_next lookup remove delete
cancels_6 = cancels (pos 9) [] refl refl

reach_s3 : Path1 s3
reach_s3 = next (next (next (next start generates_1) looks_1) asks_2) serves_3

reach_s6 : Path1 s6
reach_s6 = next (next (next (next reach_s3 stops_4) looks_4) collects_5) cancels_6

no_runs_unlike : (key : Key) (runs : List Run) → runs ≡ [] → All (λ r. r.key ≢ key) runs
no_runs_unlike key [] e = tt
no_runs_unlike key (r ∷ runs) e = absurd (cc)

no_keys : (key : Key) (keys : List Key) → keys ≡ [] → All (λ k. k ≢ key) keys
no_keys key [] e = tt
no_keys key (k ∷ keys) e = absurd (cc)

no_runs_other : (id : ℤ) (runs : List Run) → runs ≡ [] → All (λ r. r.id ≢ id) runs
no_runs_other id [] e = tt
no_runs_other id (r ∷ runs) e = absurd (cc)

fresh_keys : FreshKeys Factory
fresh_keys s key f = ((λ e. cc (f.1)), no_keys key s.queue f.2, no_runs_unlike key s.runs f.3)

fresh_ids : FreshIds Master
fresh_ids s request id m = no_runs_other id s.runs m.2

pipelines_limited_example : active s3.runs ≤ 1
pipelines_limited_example =
    pipelines_limited (pos 1) Master Factory 1 refl (λ s request id m. m.1) {s = s3} reach_s3

keys_differ_example : DistinctKeys s3.runs
keys_differ_example = keys_differ (pos 1) Master Factory fresh_keys {s = s3} reach_s3

shutdown_cancels_all_example : IsCanceled s6 run_9
shutdown_cancels_all_example =
    shutdown_cancels_all (pos 1) Master Factory fresh_ids {s = s6} [] run_9 [] reach_s6 refl refl
      refl

-- A master that has nothing at first and then ends the runner.
abbrev Ending : Scheduler → Request → Reply → Type 0
Ending s request reply = (reply ≡ no_task) ⊎ (reply ≡ task (runner_terminate []))

abbrev Path2 : Scheduler → Type 0
Path2 = Reach (pos 1) Ending Factory

abbrev t3 : Scheduler
t3 = record initial { loop = sleeping; ssh_key = some (key_of 1); alive = true }

abbrev t4 : Scheduler
t4 = record t3 { loop = replying; pending = some asked }

abbrev t5 : Scheduler
t5 = record t3 { loop = suspended; terminations = 1 }

abbrev t3_checking : Scheduler
t3_checking = record t3 { loop = checking }

abbrev t3_fetching : Scheduler
t3_fetching = record t3 { loop = fetching }

reach_t3 : Path2 t3
unfolding ask range serve check_context
reach_t3 =
    next {s = s2}
      (next {s = looked_1}
        (next {s = s1}
          (next {s = initial} start (generates (key_of 1) (refl, refl, refl, refl) refl))
          (looks refl refl))
        (asks refl refl))
      (serves asked (key_of 1) no_task refl refl refl (inl refl) refl)

reach_t5 : Path2 t5
unfolding ask range serve serve_task end_task check_context
reach_t5 =
    next {s = t4}
      (next {s = t3_fetching}
        (next {s = t3_checking} (next {s = t3} reach_t3 (wakes refl refl)) (looks refl refl))
        (asks refl refl))
      (serves asked (key_of 1) (task (runner_terminate [])) refl refl refl (inr refl) refl)

Terminates-once_example :
    (t5.terminations ≡ 0)
    ⊎ ((t5.terminations ≡ 1)
        × ((t5.loop ≡ suspended)
            ⊎ ((t5.context_done ≡ true) × ((t5.loop ≡ checking) ⊎ (t5.loop ≡ ended)))))
Terminates-once_example = Terminates-once (pos 1) Ending Factory {s = t5} reach_t5
