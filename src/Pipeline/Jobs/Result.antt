-- ===== src/Pipeline/Jobs/Result.antt =====
-- The loop of `runJobs` over the stages, and what its result says of the jobs.
use snake_runner.Base.{
  ℕ, ◌+◌, ℤ, List, [], ◌∷◌, ◌++◌, length, Option, none, some, Bool, true, false, All, All-append,
  All-split, concat, ◌≡◌, refl, ap, subst, ◌∙◌, ◌⊎◌, arith,
}
use snake_runner.Errors.{Error}
use snake_runner.Status.{Status}
use snake_runner.Snake.{PipelineJob}
use snake_runner.Pipeline.Jobs.{
  Outcome, succeeds, World, Phase, finishing, returned, gone, Worker, Shared, advance, Stage, spawn,
  is_gone, IsDone, Step, step, Reach, here, next,
}

module _ (world : World) (pipeline_id : ℤ) (jobs : List PipelineJob) where
  -- `runJobs` from the index behind the jobs started so far: the stages left, the status and the
  -- error that it returns, and what is shared at its end.
  pub data RunJobs
      : ℕ → Shared → List (List PipelineJob) → Status × Option Error → Shared → Type 0 where
    all_passed : (index : ℕ) (s : Shared) → RunJobs index s [] (Status.success, none) s
    stage_failed :
        (index : ℕ) (s : Shared) (stage : List PipelineJob) (rest : List (List PipelineJob)) (n : ℕ)
        (t : Stage) (status : Status) (error : Error)
        → Reach world pipeline_id jobs (record { shared = s; workers = spawn index stage }) n t
        → IsDone t.workers
        → t.shared.result ≡ some (status, error)
        → RunJobs index s (stage ∷ rest) (status, some error) t.shared
    stage_passed :
        (index : ℕ) (s : Shared) (stage : List PipelineJob) (rest : List (List PipelineJob)) (n : ℕ)
        (t : Stage) (out : Status × Option Error) (s' : Shared)
        → Reach world pipeline_id jobs (record { shared = s; workers = spawn index stage }) n t
        → IsDone t.workers
        → t.shared.result ≡ none
        → RunJobs (index + length stage) t.shared rest out s'
        → RunJobs index s (stage ∷ rest) out s'

-- A final status agrees with the outcome of the task.
abbrev Agrees : Outcome → Status → Option Error → Type 0
Agrees o status none = (status ≡ Status.success) × (o ≡ succeeds)
Agrees o status (some error) = (status ≡ Status.failed) ⊎ (status ≡ Status.canceled)

abbrev PhaseAgrees : Outcome → Phase → Type 0
PhaseAgrees o (finishing status error) = Agrees o status error
PhaseAgrees o (returned status error) = Agrees o status error
PhaseAgrees o (gone status error) = Agrees o status error
PhaseAgrees o _ = Unit

abbrev pub Failure : Status × Option Error → Type 0
Failure (status, none) = status ≡ Status.success
Failure (status, some error) = (status ≡ Status.failed) ⊎ (status ≡ Status.canceled)

-- The indices from `index` on, one for each job.
abbrev pub numbers : {A : Type 0} → ℕ → List A → List ℕ
numbers index [] = []
numbers index (job ∷ rest) = index ∷ numbers (index + 1) rest

-- A worker that is gone has reported no error.
abbrev reports_none : Phase → Bool
reports_none (gone status (some error)) = false
reports_none _ = true

abbrev pub ResultFails : Option (Status × Error) → Type 0
ResultFails none = Unit
ResultFails (some (status, error)) = (status ≡ Status.failed) ⊎ (status ≡ Status.canceled)

module _ (world : World) (pipeline_id : ℤ) (jobs : List PipelineJob) where
  abbrev Honest : Worker → Type 0
  Honest w = PhaseAgrees (world.task w.index) w.phase

  abbrev Clean : Worker → Type 0
  Clean w = reports_none w.phase ≡ true

  Honest-moves :
      (s : Shared) (w : Worker) (s' : Shared) (w' : Worker)
      → advance world pipeline_id jobs s w ≡ some (s', w')
      → Honest w
      → Honest w'
  unfolding advance
  Honest-moves s w s' w' h a = ground arith

  index_moves :
      (s : Shared) (w : Worker) (s' : Shared) (w' : Worker)
      → advance world pipeline_id jobs s w ≡ some (s', w')
      → w'.index ≡ w.index
  unfolding advance
  index_moves s w s' w' h = ground arith

  Clean-moves :
      (s : Shared) (w : Worker) (s' : Shared) (w' : Worker)
      → advance world pipeline_id jobs s w ≡ some (s', w')
      → s'.result ≡ none
      → (s.result ≡ none) × Clean w'
  unfolding advance
  Clean-moves s w s' w' h r = (ground arith, ground arith)

  result_moves :
      (s : Shared) (w : Worker) (s' : Shared) (w' : Worker)
      → advance world pipeline_id jobs s w ≡ some (s', w')
      → Honest w
      → ResultFails s.result
      → ResultFails s'.result
  unfolding advance
  result_moves s w s' w' h a r = ground arith

  record Sound (s : Stage) : Type 0 where
    honest : All Honest s.workers
    recorded : s.shared.result ≡ none → All Clean s.workers
    fails : ResultFails s.shared.result

  Sound-step : {s t : Stage} → Sound s → Step world pipeline_id jobs s t → Sound t
  Sound-step {s} k (step before w after shared w' e h e') =
      let parts = All-split Honest before (w ∷ after) (rw e at k.honest) in
      rw e' (record {
        honest =
            All-append Honest before (w' ∷ after) parts.0
              (Honest-moves s.shared w shared w' h parts.1.0, parts.1.1);
        recorded = λ r.
            let moved = Clean-moves s.shared w shared w' h r in
            let clean = All-split Clean before (w ∷ after) (rw e at k.recorded moved.0) in
            All-append Clean before (w' ∷ after) clean.0 (moved.1, clean.1.1);
        fails = result_moves s.shared w shared w' h parts.1.0 k.fails;
      })

  Sound-Reach :
      {s : Stage} {n : ℕ} {t : Stage} → Sound s → Reach world pipeline_id jobs s n t → Sound t
  Sound-Reach k here = k
  Sound-Reach k (next r st) = Sound-step (Sound-Reach k r) st

  spawn-Honest : (index : ℕ) (stage : List PipelineJob) → All Honest (spawn index stage)
  unfolding spawn
  spawn-Honest index [] = tt
  spawn-Honest index (job ∷ rest) = (tt, spawn-Honest (index + 1) rest)

  spawn-Clean : (index : ℕ) (stage : List PipelineJob) → All Clean (spawn index stage)
  unfolding spawn
  spawn-Clean index [] = tt
  spawn-Clean index (job ∷ rest) = (refl, spawn-Clean (index + 1) rest)

  spawn-Sound :
      (s : Shared) (index : ℕ) (stage : List PipelineJob)
      → ResultFails s.result
      → Sound (record { shared = s; workers = spawn index stage })
  spawn-Sound s index stage f = record {
    honest = spawn-Honest index stage;
    recorded = λ r. spawn-Clean index stage;
    fails = f;
  }

  -- The tasks with these indices succeeded.
  abbrev pub Succeeded : List ℕ → Type 0
  Succeeded = All (λ index. world.task index ≡ succeeds)

  indices : List Worker → List ℕ
  indices [] = []
  indices (w ∷ ws) = w.index ∷ indices ws

  one_succeeded :
      (w : Worker) → Honest w → Clean w → is_gone w.phase ≡ true → world.task w.index ≡ succeeds
  one_succeeded w a c g = ground arith

  all-Succeeded :
      (ws : List Worker) → All Honest ws → All Clean ws → IsDone ws → Succeeded (indices ws)
  unfolding indices
  all-Succeeded [] a c d = tt
  all-Succeeded (w ∷ ws) a c d = (one_succeeded w a.0 c.0 d.0, all-Succeeded ws a.1 c.1 d.1)

  indices-append : (xs ys : List Worker) → indices (xs ++ ys) ≡ indices xs ++ indices ys
  unfolding indices
  indices-append [] ys = refl
  indices-append (x ∷ xs) ys = ap (◌∷◌ x.index) (indices-append xs ys)

  step_indices :
      {s t : Stage} → Step world pipeline_id jobs s t → indices t.workers ≡ indices s.workers
  step_indices {s} (step before w after shared w' e h e') =
      rw (e, e', indices-append before (w ∷ after), indices-append before (w' ∷ after))
        (unfold indices in rw (index_moves s.shared w shared w' h))

  Reach-indices :
      {s : Stage} {n : ℕ} {t : Stage}
      → Reach world pipeline_id jobs s n t
      → indices t.workers ≡ indices s.workers
  Reach-indices here = refl
  Reach-indices (next r st) = step_indices st ∙ Reach-indices r

  indices-spawn :
      (index : ℕ) (stage : List PipelineJob) → indices (spawn index stage) ≡ numbers index stage
  unfolding spawn indices
  indices-spawn index [] = refl
  indices-spawn index (job ∷ rest) = ap (◌∷◌ index) (indices-spawn (index + 1) rest)

  numbers-append :
      (index : ℕ) (xs ys : List PipelineJob)
      → numbers index (xs ++ ys) ≡ numbers index xs ++ numbers (index + length xs) ys
  numbers-append index [] ys = ap (λ i. numbers i ys) (omega arith)
  numbers-append index (x ∷ xs) ys = ap (◌∷◌ index) (
      numbers-append (index + 1) xs ys
      ∙ ap (λ i. numbers (index + 1) xs ++ numbers i ys) (omega arith))

  -- `runJobs` returns no error only if the task of every job of every stage has run and succeeded.
  pub run_jobs_success :
      {index : ℕ} {s : Shared} {stages : List (List PipelineJob)} {out : Status × Option Error}
      {s' : Shared}
      → RunJobs world pipeline_id jobs index s stages out s'
      → ResultFails s.result
      → out.1 ≡ none
      → Succeeded (numbers index (concat stages))
  run_jobs_success (all_passed index s) f o = tt
  run_jobs_success (stage_failed index s stage rest n t status error r d e) f o = absurd (cc)
  run_jobs_success (stage_passed index s stage rest n t out s' r d e more) f o =
      let k = Sound-Reach (spawn-Sound s index stage f) r in
      rw (numbers-append index stage (concat rest)) (
        All-append _ (numbers index stage) (numbers (index + length stage) (concat rest))
          (rw (Reach-indices r ∙ indices-spawn index stage) at
            (all-Succeeded t.workers k.honest (k.recorded e) d))
          (run_jobs_success more k.fails o))

  -- The status that `runJobs` returns is SUCCESS without an error, and FAILED or CANCELED with one.
  pub run_jobs_status :
      {index : ℕ} {s : Shared} {stages : List (List PipelineJob)} {out : Status × Option Error}
      {s' : Shared}
      → RunJobs world pipeline_id jobs index s stages out s'
      → ResultFails s.result
      → Failure out
  run_jobs_status (all_passed index s) f = refl
  run_jobs_status (stage_failed index s stage rest n t status error r d e) f =
      subst ResultFails e (Sound-Reach (spawn-Sound s index stage f) r).fails
  run_jobs_status (stage_passed index s stage rest n t out s' r d e more) f =
      run_jobs_status more (Sound-Reach (spawn-Sound s index stage f) r).fails
