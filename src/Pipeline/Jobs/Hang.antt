-- ===== src/Pipeline/Jobs/Hang.antt =====
-- The first stage where the master refuses the RUNNING of the first job: `runJob` returns before
-- `configCond` is set.
use snake_runner.Base.{
  ℕ, ◌+◌, ◌≤◌, ℤ, List, [], ◌∷◌, ◌++◌, Option, none, some, Bool, true, false, All, All-append,
  All-split, Any, Any-append, Any-left, Any-right, ◌≡◌, refl, ◌⊎◌, inl, inr, arith, nat_beq,
  nat_beq_iff,
}
use snake_runner.Errors.{Error}
use snake_runner.Status.{Status}
use snake_runner.Snake.{PipelineJob}
use snake_runner.Client.{Log, update_job}
use snake_runner.Signal.{unset}
use snake_runner.Pipeline.Jobs.{
  World, Phase, ready, preparing, running, finishing, returned, gone, Worker, Shared, advance,
  Stage, spawn, IsDone, Step, step, Reach, here, next,
}

abbrev stays_out : Phase → Bool
stays_out ready = true
stays_out preparing = false
stays_out running = false
stays_out (finishing status error) = false
stays_out (returned status error) = true
stays_out (gone status error) = true

-- A worker with index 1 is the first job's, and never enters `processJob`.
abbrev Refused : PipelineJob → Worker → Type 0
Refused first w = w.index ≡ 1 → (w.job ≡ first) × (stays_out w.phase ≡ true)

abbrev Waits : PipelineJob → Worker → Type 0
Waits second w =
    (nat_beq w.index 1 ≡ false) × (w.job ≡ second) × ((w.phase ≡ ready) ⊎ (w.phase ≡ preparing))

spawn-Refused :
    (first : PipelineJob) (index : ℕ) (jobs : List PipelineJob)
    → 2 ≤ index
    → All (Refused first) (spawn index jobs)
unfolding spawn
spawn-Refused first index [] h = tt
spawn-Refused first index (job ∷ jobs) h =
    ((λ e. absurd (omega arith)), spawn-Refused first (index + 1) jobs (omega arith))

not-IsDone : (second : PipelineJob) (ws : List Worker) → Any (Waits second) ws → ¬ IsDone ws
not-IsDone second [] h d = h
not-IsDone second (w ∷ ws) (inl (i, j, inl p)) d = ground arith
not-IsDone second (w ∷ ws) (inl (i, j, inr p)) d = ground arith
not-IsDone second (w ∷ ws) (inr h) d = not-IsDone second ws h d.1

module _ (world : World) (pipeline_id : ℤ) (jobs : List PipelineJob) (first second : PipelineJob)
    (refused : (log : Log) (time : Option ℕ)
      → (e : Error) × (world.server.reply log
            (update_job pipeline_id first.id Status.running time none)
          ≡ some e))
    (accepted : (log : Log) (time : Option ℕ)
      → world.server.reply log (update_job pipeline_id second.id Status.running time none)
        ≡ none) where
  Refused-moves :
      (s : Shared) (w : Worker) (s' : Shared) (w' : Worker)
      → advance world pipeline_id jobs s w ≡ some (s', w')
      → Refused first w
      → Refused first w'
  unfolding advance
  Refused-moves s w s' w' h r i =
      ground (arith, nat_beq_iff w.index 1, refused s.log (some (world.server.clock s.log)))

  unset_moves :
      (s : Shared) (w : Worker) (s' : Shared) (w' : Worker)
      → advance world pipeline_id jobs s w ≡ some (s', w')
      → Refused first w
      → s.condition ≡ unset
      → s'.condition ≡ unset
  unfolding advance
  unset_moves s w s' w' h r u = ground (arith, nat_beq_iff w.index 1)

  Waits-moves :
      (s : Shared) (w : Worker) (s' : Shared) (w' : Worker)
      → advance world pipeline_id jobs s w ≡ some (s', w')
      → s.condition ≡ unset
      → Waits second w
      → Waits second w'
  unfolding advance
  Waits-moves s w s' w' h u (i, j, inl p) =
      ground (arith, accepted s.log (some (world.server.clock s.log)))
  Waits-moves s w s' w' h u (i, j, inr p) = ground arith

  record Stuck (s : Stage) : Type 0 where
    undecided : s.shared.condition ≡ unset
    outside : All (Refused first) s.workers
    waiting : Any (Waits second) s.workers

  Stuck-step : {s t : Stage} → Stuck s → Step world pipeline_id jobs s t → Stuck t
  Stuck-step {s} k (step before w after shared w' e h e') =
      let parts = All-split (Refused first) before (w ∷ after) (rw e at k.outside) in
      rw e' (record {
        undecided = unset_moves s.shared w shared w' h parts.1.0 k.undecided;
        outside =
            All-append (Refused first) before (w' ∷ after) parts.0
              (Refused-moves s.shared w shared w' h parts.1.0, parts.1.1);
        waiting = still_waiting (Any-append (Waits second) before (w ∷ after) (rw e at k.waiting));
      })
    where
      still_waiting :
          Any (Waits second) before ⊎ Any (Waits second) (w ∷ after)
          → Any (Waits second) (before ++ w' ∷ after)
      still_waiting (inl front) = Any-left (Waits second) before (w' ∷ after) front
      still_waiting (inr (inl moved)) =
          Any-right (Waits second) before (w' ∷ after)
            (inl (Waits-moves s.shared w shared w' h k.undecided moved))
      still_waiting (inr (inr back)) = Any-right (Waits second) before (w' ∷ after) (inr back)

  Stuck-Reach :
      {s : Stage} {n : ℕ} {t : Stage} → Stuck s → Reach world pipeline_id jobs s n t → Stuck t
  Stuck-Reach k here = k
  Stuck-Reach k (next r st) = Stuck-step (Stuck-Reach k r) st

  -- Where the master always refuses the RUNNING of the first job and accepts that of the second
  -- job of the same stage, and the condition is not set at the start, no order of steps leads to a
  -- state where all workers are done: the pipeline never ends.
  pub first_stage_hangs :
      (shared : Shared) (rest : List PipelineJob) (n : ℕ) (t : Stage)
      → shared.condition ≡ unset
      → Reach world pipeline_id jobs
          (record { shared = shared; workers = spawn 1 (first ∷ second ∷ rest) })
          n
          t
      → ¬ IsDone t.workers
  unfolding spawn
  first_stage_hangs shared rest n t u r = not-IsDone second t.workers (Stuck-Reach start r).waiting
    where
      start : Stuck (record { shared = shared; workers = spawn 1 (first ∷ second ∷ rest) })
      start = record {
        undecided = u;
        outside = (
          (λ e. (refl, refl)),
          ((λ e. absurd (omega arith)), spawn-Refused first 3 rest (omega arith)),
        );
        waiting = inr (inl (refl, refl, inl refl));
      }
