-- ===== src/Scheduler/Counter.antt =====
-- The count of pipelines, its limit, and the termination.
use snake_runner.Base.{
  ℕ, ◌+◌, ◌≤◌, ◌<◌, ℤ, pos, List, [], ◌∷◌, ◌++◌, some, true, ◌≡◌, refl, ap, ◌⊎◌, inl, arith, ◌∙◌,
}
use snake_runner.Scheduler.{
  Key, RunPhase, running, left, counted, uncancelled, Run, Request, Task, pipeline_run,
  pipeline_cancel, runner_terminate, unexpected, Reply, failed, no_task, task, checking, suspended,
  ended, Scheduler, end_task, resume, check_context, miss_key, start_pipeline, cancel_pipeline,
  cancel_pipelines, serve_task, ask, serve, leave, stop, collect, cancel_next,
}
use snake_runner.Scheduler.Steps.{
  rest_of, Step, generates, looks, asks, misses, serves, wakes, returns, resumes, leaves, stops,
  collects, cancels, Reach, start, next,
}

-- A goroutine that has not yet counted itself out.
abbrev weight : RunPhase → ℕ
weight running = 1
weight left = 1
weight counted = 0
weight uncancelled = 0

-- The goroutines whose pipeline is still counted.
abbrev pub active : List Run → ℕ
active [] = 0
active (r ∷ runs) = weight r.phase + active runs

active-append : (xs ys : List Run) → active (xs ++ ys) ≡ active xs + active ys
active-append [] ys = omega arith
active-append (x ∷ xs) ys = omega (arith, active-append xs ys)

cancel_pipelines_same :
    (s : Scheduler) (ids : List ℤ)
    → ((cancel_pipelines s ids).pipelines ≡ s.pipelines)
      × ((cancel_pipelines s ids).runs ≡ s.runs)
      × ((cancel_pipelines s ids).terminations ≡ s.terminations)
unfolding cancel_pipelines
cancel_pipelines_same s [] = (refl, refl, refl)
cancel_pipelines_same s (id ∷ ids) =
    ground (arith, cancel_pipelines_same (cancel_pipeline s id) ids)

module _ (max : ℤ) (Master : Scheduler → Request → Reply → Type 0)
    (Factory : Scheduler → Key → Type 0) where
  counts_step :
      {s t : Scheduler}
      → Step max Master Factory s t
      → s.pipelines ≡ pos (active s.runs)
      → t.pipelines ≡ pos (active t.runs)
  unfolding ask serve end_task resume check_context miss_key leave stop collect cancel_next
  counts_step (generates key f e) h = ground arith
  counts_step (looks d e) h = ground arith
  counts_step (asks d e) h = ground arith
  counts_step (misses d k c e) h = ground arith
  counts_step (wakes d e) h = ground arith
  counts_step (returns d c e) h = ground arith
  counts_step (resumes d c e) h = ground arith
  counts_step {s} (serves request key reply d p k m e) h = rw e (on_reply reply)
    where
      on_task :
          (t : Task)
          → (end_task (serve_task s t key)).pipelines
            ≡ pos (active (end_task (serve_task s t key)).runs)
      on_task (pipeline_run id) = unfold serve_task in ground arith
      on_task (pipeline_cancel ids) =
          unfold serve_task in ground (arith, cancel_pipelines_same s ids)
      on_task (runner_terminate text) = unfold serve_task in ground arith
      on_task unexpected = unfold serve_task in h

      on_reply : (r : Reply) → (serve s key r).pipelines ≡ pos (active (serve s key r).runs)
      on_reply (failed error) = h
      on_reply no_task = h
      on_reply (task t) = on_task t
  counts_step {s} (leaves before r after e e') h = rw e' (
      ground (
        arith,
        h ∙ ap (λ runs. pos (active runs)) e,
        active-append before (r ∷ after),
        active-append before (rest_of (leave s r r.phase).1 after),
      ))
  counts_step (stops e) h = ground arith
  counts_step (collects d p n e) h = ground arith
  counts_step (cancels id ids p e) h = ground arith

  -- `scheduler.pipelines` is the number of the goroutines that have not counted themselves out.
  pub pipelines_counts :
      {s : Scheduler} → Reach max Master Factory s → s.pipelines ≡ pos (active s.runs)
  pipelines_counts start = refl
  pipelines_counts (next r st) = counts_step st (pipelines_counts r)

  -- With at most `m` pipelines; a request that asks for one is sent only where there is room.
  record Limit (m : ℕ) (s : Scheduler) : Type 0 where
    within : active s.runs ≤ m
    room :
        (request : Request)
        → s.pending ≡ some request
        → request.query_pipeline ≡ true
        → active s.runs < m

  active-leave :
      (s : Scheduler) (before : List Run) (r : Run) (after : List Run)
      → active (before ++ rest_of (leave s r r.phase).1 after) ≤ active (before ++ r ∷ after)
  unfolding leave
  active-leave s before r after = ground (
    arith,
    active-append before (r ∷ after),
    active-append before (rest_of (leave s r r.phase).1 after),
  )

  leave_pending : (s : Scheduler) (r : Run) → (leave s r r.phase).0.pending ≡ s.pending
  unfolding leave
  leave_pending s r = ground arith

  module _ (m : ℕ) (at_most : max ≡ pos m)
      (obeys : (s : Scheduler) (request : Request) (id : ℤ)
        → Master s request (task (pipeline_run id))
        → request.query_pipeline ≡ true) where
    serve-Limit :
        (s : Scheduler) (request : Request) (key : Key) (reply : Reply)
        → Limit m s
        → s.pending ≡ some request
        → Master s request reply
        → Limit m (serve s key reply)
    unfolding serve serve_task start_pipeline end_task resume
    serve-Limit s request key (failed error) l p k = record {
      within = l.within;
      room = λ other q. cc;
    }
    serve-Limit s request key no_task l p k = record { within = l.within; room = λ other q. cc }
    serve-Limit s request key (task (pipeline_run id)) l p k = record {
      within = omega (arith, l.room request p (obeys s request id k));
      room = λ other q. cc;
    }
    serve-Limit s request key (task (pipeline_cancel ids)) l p k = record {
      within = rw ((cancel_pipelines_same s ids).1) l.within;
      room = λ other q. cc;
    }
    serve-Limit s request key (task (runner_terminate text)) l p k = record {
      within = ground (arith, l.within);
      room = λ other q. ground arith;
    }
    serve-Limit s request key (task unexpected) l p k = record {
      within = l.within;
      room = λ other q. cc;
    }

    Limit-step :
        {s t : Scheduler}
        → Step max Master Factory s t
        → s.pipelines ≡ pos (active s.runs)
        → Limit m s
        → Limit m t
    unfolding ask stop collect cancel_next cancel_pipeline check_context miss_key resume
    Limit-step (generates key f e) c l = rw e (record { within = l.within; room = l.room })
    Limit-step (looks d e) c l = rw e (record { within = l.within; room = l.room })
    Limit-step (misses d k i e) c l = rw e (record { within = l.within; room = l.room })
    Limit-step (wakes d e) c l = rw e (record { within = l.within; room = l.room })
    Limit-step (returns d i e) c l = rw e (record { within = l.within; room = l.room })
    Limit-step (resumes d i e) c l = rw e (record { within = l.within; room = l.room })
    Limit-step (asks d e) c l = record {
      within = ground (arith, l.within);
      room = λ request q y. ground arith;
    }
    Limit-step (serves request key reply d p k g e) c l =
        rw e (serve-Limit _ request key reply l p g)
    Limit-step {s} (leaves before r after e e') c l =
        let fewer = active-leave s before r after in
        rw e' (record {
          within = omega (arith, fewer, ap active e, l.within);
          room = λ request q y.
              omega (arith, fewer, ap active e, l.room request (rw (leave_pending s r) at q) y);
        })
    Limit-step (stops e) c l = rw e (record { within = l.within; room = l.room })
    Limit-step (collects d p n e) c l = rw e (record { within = l.within; room = l.room })
    Limit-step {s} (cancels id ids p e) c l = record {
      within = ground (arith, l.within);
      room = λ request q y. ground (arith, l.room request);
    }

    Limit-Reach : {s : Scheduler} → Reach max Master Factory s → Limit m s
    Limit-Reach start = record { within = omega arith; room = λ request q. cc }
    Limit-Reach (next r st) = Limit-step st (pipelines_counts r) (Limit-Reach r)

    -- Where the master sends a pipeline only to a request that asks for one, never more than
    -- `MaxParallelPipelines` pipelines run at a time.
    pub pipelines_limited : {s : Scheduler} → Reach max Master Factory s → active s.runs ≤ m
    pipelines_limited r = (Limit-Reach r).within

  -- `Terminate` was not called; or once, and the loop waits for the context, or the context is done
  -- and the loop looks at it next or has ended.
  abbrev pub Terminates : Scheduler → Type 0
  Terminates s =
      (s.terminations ≡ 0)
      ⊎ ((s.terminations ≡ 1)
          × ((s.loop ≡ suspended)
              ⊎ ((s.context_done ≡ true) × ((s.loop ≡ checking) ⊎ (s.loop ≡ ended)))))

  Terminates-step : {s t : Scheduler} → Step max Master Factory s t → Terminates s → Terminates t
  unfolding ask serve serve_task end_task resume start_pipeline leave stop collect cancel_next
      cancel_pipeline check_context miss_key
  Terminates-step (generates key f e) h = ground arith
  Terminates-step (looks d e) h = ground arith
  Terminates-step (asks d e) h = ground arith
  Terminates-step (misses d k c e) h = ground arith
  Terminates-step {s} (serves request key (task (pipeline_cancel ids)) d p k g e) h =
      ground (arith, cancel_pipelines_same s ids)
  Terminates-step (serves request key (task (pipeline_run id)) d p k g e) h = ground arith
  Terminates-step (serves request key (task (runner_terminate text)) d p k g e) h = ground arith
  Terminates-step (serves request key (task unexpected) d p k g e) h = ground arith
  Terminates-step (serves request key (failed error) d p k g e) h = ground arith
  Terminates-step (serves request key no_task d p k g e) h = ground arith
  Terminates-step (wakes d e) h = ground arith
  Terminates-step (returns d c e) h = ground arith
  Terminates-step (resumes d c e) h = ground arith
  Terminates-step (leaves before r after e e') h = ground arith
  Terminates-step (stops e) h = ground arith
  Terminates-step (collects d p n e) h = ground arith
  Terminates-step (cancels id ids p e) h = ground arith

  -- `Terminate` closes a channel, which panics the second time: it is called once at most, and
  -- afterwards the loop waits for the context, or the context is done and the loop looks at it next
  -- or has ended.
  pub Terminates-once : {s : Scheduler} → Reach max Master Factory s → Terminates s
  Terminates-once start = inl refl
  Terminates-once (next r st) = Terminates-step st (Terminates-once r)
