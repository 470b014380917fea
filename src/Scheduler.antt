-- ===== src/Scheduler.antt =====
-- cmd/snake-runner/scheduler.go: the loop that asks the master for tasks, the goroutines of the
-- pipelines that it starts, and the shutdown. A context made by `context.WithCancel` is a number,
-- and its cancel function is that number too.
pub mod Steps
pub mod Counter
pub mod KeySets
pub mod Keys
pub mod Cancels
pub use snake_runner.Sshkey.{Key}
use snake_runner.Base.{
  ℕ, zero, suc, ◌+◌, ◌-◌, ℤ, pos, negsuc, int_eq, Text, List, [], ◌∷◌, ◌++◌, Option, none, some,
  Bool, true, false, ltb, if◌then◌else◌,
}
use snake_runner.Errors.{Error}
use snake_runner.SafeMap.{IntToAny, IntToContextCancelFunc, load, store, delete, range}
use snake_runner.SafeMap.Laws.{collect_key}

-- Where the goroutine of `startPipeline` stands: in `process.Run()`, and behind each of the
-- deferred calls, which run in the reverse order.
pub data RunPhase : Type 0 where
  running left counted uncancelled : RunPhase

pub record Run : Type 0 where
  pub id : ℤ
  pub ctx : ℕ
  pub key : Key
  pub phase : RunPhase

-- What `GetTask` sends.
pub record Request : Type 0 where
  pub running_pipelines : List ℤ
  pub query_pipeline : Bool
  pub ssh_key : Text

pub data Task : Type 0 where
  pipeline_run : ℤ → Task
  pipeline_cancel : List ℤ → Task
  runner_terminate : Text → Task
  unexpected : Task

pub data Reply : Type 0 where
  failed : Error → Reply
  no_task : Reply
  task : Task → Reply

-- Where the goroutine of `loop` stands: at the `select` at its head, in `getAndServe` in front of
-- `GetTask` and in that call, in the wait between two rounds, in the wait of `serveTask` for the
-- context, and at its end.
pub data LoopPhase : Type 0 where
  checking fetching replying sleeping suspended ended : LoopPhase

pub record Scheduler : Type 0 where
  pub loop : LoopPhase
  pub pipelines_map : IntToAny (Unit {0})
  pub pipelines : ℤ
  pub cancels : IntToContextCancelFunc ℕ
  pub ssh_key : Option Key
  pub alive : Bool
  -- `scheduler.context` is done
  pub context_done : Bool
  -- how often `terminator.Terminate()` was called
  pub terminations : ℕ
  -- the contexts that were canceled, and the number of the next one
  pub canceled : List ℕ
  pub next_ctx : ℕ
  -- the goroutines of the pipelines
  pub runs : List Run
  -- the channel of the key factory
  pub queue : List Key
  -- the request whose reply the loop waits for
  pub pending : Option Request
  -- the identifiers that `shutdown` has still to cancel, once it has collected them
  pub shutdown_ids : Option (List ℤ)

-- `atomic.AddInt64(&scheduler.pipelines, ±1)`; the count stays far from the bounds of an int64.
abbrev pub incr : ℤ → ℤ
incr (pos n) = pos (n + 1)
incr (negsuc zero) = pos 0
incr (negsuc (suc n)) = negsuc n

abbrev pub decr : ℤ → ℤ
decr (pos zero) = negsuc 0
decr (pos (suc n)) = pos n
decr (negsuc n) = negsuc (n + 1)

abbrev pub less : ℤ → ℤ → Bool
less (pos a) (pos b) = ltb a b
less (pos a) (negsuc b) = false
less (negsuc a) (pos b) = true
less (negsuc a) (negsuc b) = ltb b a

unfoldable pub get_pipelines : Scheduler → List ℤ
get_pipelines s = range collect_key s.pipelines_map []

unfoldable pub start_pipeline : Scheduler → ℤ → Key → Scheduler
start_pipeline s id key = record s {
  pipelines_map = store s.pipelines_map id tt;
  cancels = store s.cancels id s.next_ctx;
  pipelines = incr s.pipelines;
  next_ctx = s.next_ctx + 1;
  runs = record { id = id; ctx = s.next_ctx; key = key; phase = running } ∷ s.runs;
}

unfoldable pub cancel_pipeline : Scheduler → ℤ → Scheduler
cancel_pipeline s id = elim (load s.cancels id) [
  | none ↦ s
  | some cancel ↦ record s {
    canceled = cancel ∷ s.canceled;
    cancels = delete s.cancels id;
    pipelines_map = delete s.pipelines_map id;
  }
]

unfoldable pub cancel_pipelines : Scheduler → List ℤ → Scheduler
unfolding cancel_pipeline
cancel_pipelines s [] = s
cancel_pipelines s (id ∷ ids) = cancel_pipelines (cancel_pipeline s id) ids

-- `serveTask`, and whether it then waits for the context, as it does after `Terminate`.
unfoldable pub serve_task : Scheduler → Task → Key → Scheduler × Bool
unfolding start_pipeline cancel_pipelines
serve_task s (pipeline_run id) key = (start_pipeline s id key, false)
serve_task s (pipeline_cancel ids) key = (cancel_pipelines s ids, false)
serve_task s (runner_terminate text) key =
    if s.alive
    then (record s { terminations = s.terminations + 1 }, true)
    else (record s { context_done = true }, false)
serve_task s unexpected key = (s, false)

-- The `select` at the head of `loop`.
unfoldable pub check_context : Scheduler → Scheduler
check_context s = record s { loop = if s.context_done then ended else fetching }

-- The key of the request: the one that is held, or the next one of the factory. `none` blocks.
unfoldable pub take_key : Scheduler → Option (Key × Scheduler)
take_key s = elim s.ssh_key [
  | some key ↦ some (key, s)
  | none ↦ elim s.queue [
    | [] ↦ none
    | key ∷ rest ↦ some (key, record s { ssh_key = some key; queue = rest })
  ]
]

-- `getAndServe` up to the call of `GetTask`; `max` is `MaxParallelPipelines`.
unfoldable pub ask : ℤ → Scheduler → Option Scheduler
unfolding take_key get_pipelines
ask max s = elim (take_key s) [
  | none ↦ none
  | some (key, s') ↦ some (record s' {
    loop = replying;
    pending = some (record {
      running_pipelines = get_pipelines s';
      query_pipeline = less s'.pipelines max;
      ssh_key = key.public;
    });
  })
]

-- `getAndServe` where the context is done before a key has come.
unfoldable pub miss_key : Scheduler → Scheduler
miss_key s = record s { loop = checking; alive = true }

-- The end of `getAndServe` for a task, with its deferred reset of the key, and `alive = true` of the
-- loop, when the wait for the context is over.
unfoldable pub resume : Scheduler → Scheduler
resume s = record s { loop = checking; ssh_key = none; alive = true }

unfoldable pub end_task : Scheduler × Bool → Scheduler
unfolding resume
end_task (s, true) = record s { pending = none; loop = suspended }
end_task (s, false) = resume (record s { pending = none })

-- `getAndServe` from the reply on, and the loop up to its next wait; `key` is `*scheduler.sshKey`.
unfoldable pub serve : Scheduler → Key → Reply → Scheduler
unfolding serve_task end_task
serve s key (failed error) = record s {
  pending = none;
  ssh_key = none;
  alive = true;
  loop = sleeping;
}
serve s key no_task = record s { pending = none; alive = true; loop = sleeping }
serve s key (task t) = end_task (serve_task s t key)

-- The next deferred call of a goroutine: the scheduler without it, and the goroutine, if it is
-- still there. The first one is `pipelinesGroup.Done()`, which nothing here reads.
unfoldable pub leave : Scheduler → Run → RunPhase → Scheduler × Option Run
leave s r running = (s, some (record r { phase = left }))
leave s r left = (record s { pipelines = decr s.pipelines }, some (record r { phase = counted }))
leave s r counted =
    (record s { cancels = delete s.cancels r.id }, some (record r { phase = uncancelled }))
leave s r uncancelled = (record s { pipelines_map = delete s.pipelines_map r.id }, none)

-- `shutdown`: the context is canceled; when the loop is over the identifiers are collected.
unfoldable pub stop : Scheduler → Scheduler
stop s = record s { context_done = true }

unfoldable pub collect : Scheduler → Scheduler
unfolding get_pipelines
collect s = record s { shutdown_ids = some (get_pipelines s) }

-- One round of the loop that cancels.
unfoldable pub cancel_next : Scheduler → ℤ → List ℤ → Scheduler
unfolding cancel_pipeline
cancel_next s id ids = record (cancel_pipeline s id) { shutdown_ids = some ids }
