-- ===== src/Pipeline/Jobs/Progress.antt =====
-- How the workers of a stage go on.
use snake_runner.Base.{
  ℕ, ℤ, List, [], ◌∷◌, ◌++◌, append_assoc, Option, none, some, Option-cases, Bool, true, false,
  Bool-cases, Any, Any-append, Any-left, Any-right, ◌≡◌, ◌≢◌, refl, sym, ◌∙◌, ◌⊎◌, inl, inr, arith,
  nat_beq_iff,
}
use snake_runner.Status.{Status}
use snake_runner.Snake.{PipelineJob}
use snake_runner.Client.{Log, update_job}
use snake_runner.Signal.{Condition, unset, satisfied, unsatisfied}
use snake_runner.Pipeline.Jobs.{
  Outcome, succeeds, errs, panics, World, ready, preparing, Worker, Shared, advance, Stage, spawn,
  is_gone, IsDone, Step, step, Reach, here, next,
}

abbrev pub decided : Condition → Bool
decided unset = false
decided satisfied = true
decided unsatisfied = true

abbrev pub does_not_panic : Outcome → Bool
does_not_panic succeeds = true
does_not_panic (errs error) = true
does_not_panic (panics error) = false

-- The worker that is to read the config has not done so.
abbrev Leads : PipelineJob → Worker → Type 0
Leads first w = (w.index ≡ 1) × (w.job ≡ first) × ((w.phase ≡ ready) ⊎ (w.phase ≡ preparing))

abbrev Alive : PipelineJob → Stage → Type 0
Alive first s = (decided s.shared.condition ≡ true) ⊎ Any (Leads first) s.workers

module _ (world : World) (pipeline_id : ℤ) (jobs : List PipelineJob) (first : PipelineJob)
    (calm : does_not_panic world.config ≡ true)
    (accepted : (log : Log) (time : Option ℕ)
      → world.server.reply log (update_job pipeline_id first.id Status.running time none)
        ≡ none) where
  stays_decided :
      (s : Shared) (w : Worker) (s' : Shared) (w' : Worker)
      → advance world pipeline_id jobs s w ≡ some (s', w')
      → decided s.condition ≡ true
      → decided s'.condition ≡ true
  unfolding advance
  stays_decided s w s' w' h d = ground arith

  leader_moves :
      (s : Shared) (w : Worker) (s' : Shared) (w' : Worker)
      → advance world pipeline_id jobs s w ≡ some (s', w')
      → Leads first w
      → (decided s'.condition ≡ true) ⊎ Leads first w'
  unfolding advance
  leader_moves s w s' w' h (i, j, inl p) =
      ground (arith, accepted s.log (some (world.server.clock s.log)))
  leader_moves s w s' w' h (i, j, inr p) = ground (arith, nat_beq_iff w.index 1)

  Alive-step : {s t : Stage} → Alive first s → Step world pipeline_id jobs s t → Alive first t
  Alive-step (inl d) (step before w after shared w' e h e') =
      rw e' (inl (stays_decided _ w shared w' h d))
  Alive-step {s} (inr l) (step before w after shared w' e h e') =
      elim (Any-append (Leads first) before (w ∷ after) (rw e at l)) [
        | inl front ↦ rw e' (inr (Any-left (Leads first) before (w' ∷ after) front))
        | inr (inl leader) ↦ elim (leader_moves s.shared w shared w' h leader) [
          | inl d ↦ rw e' (inl d)
          | inr leader' ↦ rw e' (inr (Any-right (Leads first) before (w' ∷ after) (inl leader')))
        ]
        | inr (inr back) ↦ rw e' (inr (Any-right (Leads first) before (w' ∷ after) (inr back)))
      ]

  Alive-Reach :
      {s : Stage} {n : ℕ} {t : Stage}
      → Alive first s
      → Reach world pipeline_id jobs s n t
      → Alive first t
  Alive-Reach a here = a
  Alive-Reach a (next r st) = Alive-step (Alive-Reach a r) st

  -- What can be done next.
  abbrev Moves : Shared → Worker → Type 0
  Moves s w = (s' : Shared) × (w' : Worker) × (advance world pipeline_id jobs s w ≡ some (s', w'))

  Moves-of_some : (s : Shared) (w : Worker) → advance world pipeline_id jobs s w ≢ none → Moves s w
  Moves-of_some s w h = elim (Option-cases (advance world pipeline_id jobs s w)) [
    | inl e ↦ absurd (h e)
    | inr ((s', w'), e) ↦ (s', w', e)
  ]

  leader_can_move : (s : Shared) (w : Worker) → Leads first w → Moves s w
  unfolding advance
  leader_can_move s w (i, j, p) = Moves-of_some s w (ground (arith, nat_beq_iff w.index 1))

  decided_can_move :
      (s : Shared) (w : Worker) → decided s.condition ≡ true → is_gone w.phase ≡ false → Moves s w
  unfolding advance
  decided_can_move s w d g = Moves-of_some s w (ground arith)

  step_at :
      (s : Stage) (before : List Worker) (w : Worker) (after : List Worker)
      → s.workers ≡ before ++ w ∷ after
      → Moves s.shared w
      → (t : Stage) × Step world pipeline_id jobs s t
  step_at s before w after e (s', w', h) =
      (record { shared = s'; workers = before ++ w' ∷ after }, step before w after s' w' e h refl)

  leader_steps :
      (s : Stage) (before after : List Worker)
      → s.workers ≡ before ++ after
      → Any (Leads first) after
      → (t : Stage) × Step world pipeline_id jobs s t
  leader_steps s before [] e h = absurd h
  leader_steps s before (w ∷ after) e (inl l) =
      step_at s before w after e (leader_can_move s.shared w l)
  leader_steps s before (w ∷ after) e (inr h) =
      leader_steps s (before ++ w ∷ []) after (e ∙ sym (append_assoc before (w ∷ []) after)) h

  decided_steps :
      (s : Stage) (before after : List Worker)
      → s.workers ≡ before ++ after
      → decided s.shared.condition ≡ true
      → IsDone after ⊎ ((t : Stage) × Step world pipeline_id jobs s t)
  decided_steps s before [] e d = inl tt
  decided_steps s before (w ∷ after) e d = elim (Bool-cases (is_gone w.phase)) [
    | inl g ↦
        elim (decided_steps s (before ++ w ∷ []) after
          (e ∙ sym (append_assoc before (w ∷ []) after)) d) [
            | inl rest ↦ inl (g, rest)
            | inr move ↦ inr move
          ]
    | inr g ↦ inr (step_at s before w after e (decided_can_move s.shared w d g))
  ]

  Alive-progress :
      (s : Stage)
      → Alive first s
      → IsDone s.workers ⊎ ((t : Stage) × Step world pipeline_id jobs s t)
  Alive-progress s (inl d) = decided_steps s [] s.workers refl d
  Alive-progress s (inr l) = inr (leader_steps s [] s.workers refl l)

  spawn-Alive :
      (shared : Shared) (rest : List PipelineJob)
      → Alive first (record { shared = shared; workers = spawn 1 (first ∷ rest) })
  unfolding spawn
  spawn-Alive shared rest = inr (inl (refl, refl, inl refl))

  -- In the first stage, where the master accepts the RUNNING of the first job and reading the
  -- config does not panic, no order of steps leads to a state where the stage waits for ever: all
  -- workers are done, or one of them can go on.
  pub first_stage_progress :
      (shared : Shared) (rest : List PipelineJob) (n : ℕ) (t : Stage)
      → Reach world pipeline_id jobs
          (record { shared = shared; workers = spawn 1 (first ∷ rest) })
          n
          t
      → IsDone t.workers ⊎ ((u : Stage) × Step world pipeline_id jobs t u)
  first_stage_progress shared rest n t r =
      Alive-progress t (Alive-Reach (spawn-Alive shared rest) r)
