-- ===== src/Scheduler/Steps.antt =====
-- The scheduler with its goroutines and the master, one step at a time.
use snake_runner.Base.{ℤ, List, [], ◌∷◌, ◌++◌, Option, none, some, true, false, pos, ◌≡◌}
use snake_runner.Scheduler.{
  Key, Run, Request, Reply, checking, fetching, replying, sleeping, suspended, ended, Scheduler,
  check_context, ask, miss_key, serve, resume, leave, stop, collect, cancel_next,
}

abbrev pub rest_of : Option Run → List Run → List Run
rest_of none runs = runs
rest_of (some r) runs = r ∷ runs

-- `new_scheduler`: the scheduler that `startScheduler` makes.
abbrev pub initial : Scheduler
initial = record {
  loop = checking;
  pipelines_map = [];
  pipelines = pos 0;
  cancels = [];
  ssh_key = none;
  alive = false;
  context_done = false;
  terminations = 0;
  canceled = [];
  next_ctx = 0;
  runs = [];
  queue = [];
  pending = none;
  shutdown_ids = none;
}

-- `max` is MaxParallelPipelines; `Master` says which replies the master may give, and `Factory`
-- which keys the key factory may generate.
module _ (max : ℤ) (Master : Scheduler → Request → Reply → Type 0)
    (Factory : Scheduler → Key → Type 0) where
  pub data Step (s t : Scheduler) : Type 0 where
    -- the key factory
    generates :
        (key : Key) → Factory s key → t ≡ record s { queue = s.queue ++ key ∷ [] } → Step s t
    -- the loop looks at the context
    looks : s.loop ≡ checking → t ≡ check_context s → Step s t
    -- the loop sends a request
    asks : s.loop ≡ fetching → ask max s ≡ some t → Step s t
    -- the loop waits for a key, and the context is done
    misses :
        s.loop ≡ fetching → s.ssh_key ≡ none → s.context_done ≡ true → t ≡ miss_key s → Step s t
    -- the reply comes
    serves :
        (request : Request) (key : Key) (reply : Reply)
        → s.loop ≡ replying
        → s.pending ≡ some request
        → s.ssh_key ≡ some key
        → Master s request reply
        → t ≡ serve s key reply
        → Step s t
    -- the end of the wait between two rounds, by the time or by the context
    wakes : s.loop ≡ sleeping → t ≡ record s { loop = checking } → Step s t
    returns : s.loop ≡ sleeping → s.context_done ≡ true → t ≡ record s { loop = ended } → Step s t
    -- the end of the wait behind `Terminate`
    resumes : s.loop ≡ suspended → s.context_done ≡ true → t ≡ resume s → Step s t
    -- a goroutine makes its next deferred call
    leaves :
        (before : List Run) (r : Run) (after : List Run)
        → s.runs ≡ before ++ r ∷ after
        → t ≡ record (leave s r r.phase).0 { runs = before ++ rest_of (leave s r r.phase).1 after }
        → Step s t
    -- the shutdown
    stops : t ≡ stop s → Step s t
    collects :
        s.context_done ≡ true → s.loop ≡ ended → s.shutdown_ids ≡ none → t ≡ collect s → Step s t
    cancels :
        (id : ℤ) (ids : List ℤ)
        → s.shutdown_ids ≡ some (id ∷ ids)
        → t ≡ cancel_next s id ids
        → Step s t

  pub data Reach : Scheduler → Type 0 where
    start : Reach initial
    next : {s t : Scheduler} → Reach s → Step s t → Reach t
