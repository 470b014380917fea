-- ===== src/Scheduler/Cancels.antt =====
-- Which pipelines the scheduler can cancel, and what the shutdown cancels.
pub mod Entries
mod Operations
use snake_runner.Base.{
  ℕ, ℤ, int_eq, int_beq, int_beq_iff, List, [], ◌∷◌, ◌++◌, Option, none, some, Bool, true, false,
  Bool-cases, Option-cases, All, All-append, All-split, Any, lookup-insert, ◌≡◌, ◌≢◌, refl, sym,
  subst, ◌∙◌, ◌⊎◌, inl, inr, arith,
}
use snake_runner.SafeMap.{IntToAny, IntToContextCancelFunc, load, delete}
use snake_runner.SafeMap.Laws.{load-delete, range-collect_key, Any-keys}
use snake_runner.Scheduler.{
  Key, RunPhase, running, left, counted, uncancelled, Run, Request, pipeline_run, pipeline_cancel,
  runner_terminate, unexpected, Reply, failed, no_task, task, LoopPhase, ended, Scheduler, end_task,
  resume, check_context, miss_key, get_pipelines, start_pipeline, cancel_pipeline, cancel_pipelines,
  serve_task, ask, serve, leave, stop, collect, cancel_next,
}
use snake_runner.Scheduler.Steps.{
  rest_of, Step, generates, looks, asks, misses, serves, wakes, returns, resumes, leaves, stops,
  collects, cancels, Reach, start, next,
}
use Entries.{
  IsCanceled, Queued, Entry, Listed, Registered, Other, DistinctIds, distinct_around,
  distinct_change, distinct_drop, All-map2, All-map1, Inv,
}
use Operations.{
  Other-removed, Other-forgotten, cancel_hits, cancel_lists, cancel-IsCanceled, cancel-Registered,
  cancels-Registered, cancel_next-Registered, collect-Registered, start_registers, start_keeps,
}

leave-Inv :
    (s : Scheduler) (before : List Run) (r : Run) (after : List Run) (phase : RunPhase)
    → s.runs ≡ before ++ r ∷ after
    → Inv s
    → Inv (record (leave s r phase).0 { runs = before ++ rest_of (leave s r phase).1 after })
unfolding leave
leave-Inv s before r after phase e v = record {
  distinct = still_distinct phase;
  registered = still_registered phase;
  closed = still_closed phase;
}
  where
    ids : DistinctIds (before ++ r ∷ after)
    ids = subst DistinctIds e v.distinct

    all_registered : All (Registered s) before × All (Registered s) (r ∷ after)
    all_registered =
        All-split (Registered s) before (r ∷ after) (subst (All (Registered s)) e v.registered)

    others : All (Other r.id) before × All (Other r.id) after
    others = distinct_around before r after ids

    still_distinct : (phase : RunPhase) → DistinctIds (before ++ rest_of (leave s r phase).1 after)
    still_distinct running = distinct_change before r (record r { phase = left }) after refl ids
    still_distinct left = distinct_change before r (record r { phase = counted }) after refl ids
    still_distinct counted =
        distinct_change before r (record r { phase = uncancelled }) after refl ids
    still_distinct uncancelled = distinct_drop before r after ids

    still_registered :
        (phase : RunPhase)
        → All (Registered (leave s r phase).0) (before ++ rest_of (leave s r phase).1 after)
    still_registered running =
        All-append (Registered s) before _ all_registered.0 ((λ p. cc), all_registered.1.1)
    still_registered left =
        All-append (Registered s) before _ all_registered.0 ((λ p. cc), all_registered.1.1)
    still_registered counted =
        All-append (Registered (leave s r counted).0) before _
          (All-map2 before (Other-removed s r.id) others.0 all_registered.0)
          ((λ p. cc), All-map2 after (Other-removed s r.id) others.1 all_registered.1.1)
    still_registered uncancelled =
        All-append (Registered (leave s r uncancelled).0) before after
          (All-map2 before (Other-forgotten s r.id) others.0 all_registered.0)
          (All-map2 after (Other-forgotten s r.id) others.1 all_registered.1.1)

    still_closed :
        (phase : RunPhase) (list : List ℤ)
        → (leave s r phase).0.shutdown_ids ≡ some list
        → (leave s r phase).0.loop ≡ ended
    still_closed running list h = v.closed list h
    still_closed left list h = v.closed list h
    still_closed counted list h = v.closed list h
    still_closed uncancelled list h = v.closed list h

cancel_pipelines_frame :
    (s : Scheduler) (ids : List ℤ)
    → ((cancel_pipelines s ids).runs ≡ s.runs)
      × ((cancel_pipelines s ids).shutdown_ids ≡ s.shutdown_ids)
unfolding cancel_pipelines
cancel_pipelines_frame s [] = (refl, refl)
cancel_pipelines_frame s (id ∷ ids) =
    ground (arith, cancel_pipelines_frame (cancel_pipeline s id) ids)

cancel_next_frame :
    (s : Scheduler) (id : ℤ) (ids : List ℤ)
    → ((cancel_next s id ids).runs ≡ s.runs) × ((cancel_next s id ids).loop ≡ s.loop)
unfolding cancel_next
cancel_next_frame s id ids = ground arith

-- The identifier of a pipeline that the master sends is that of no goroutine that still lives.
abbrev pub FreshIds : (Scheduler → Request → Reply → Type 0) → Type 0
FreshIds Master =
    (s : Scheduler) (request : Request) (id : ℤ)
    → Master s request (task (pipeline_run id))
    → All (λ r. r.id ≢ id) s.runs

module _ (max : ℤ) (Master : Scheduler → Request → Reply → Type 0)
    (Factory : Scheduler → Key → Type 0) (fresh : FreshIds Master) where
  not_collected : (s : Scheduler) → Inv s → s.loop ≢ ended → s.shutdown_ids ≡ none
  not_collected s v p = elim (Option-cases s.shutdown_ids) [
    | inl e ↦ e
    | inr (ids, e) ↦ absurd (p (v.closed ids e))
  ]

  serve-Inv :
      (s : Scheduler) (request : Request) (key : Key) (reply : Reply)
      → Inv s
      → s.loop ≢ ended
      → Master s request reply
      → Inv (serve s key reply)
  unfolding serve serve_task end_task resume
  serve-Inv s request key (failed error) v p m = record {
    distinct = v.distinct;
    registered = v.registered;
    closed = λ ids e. absurd (cc (not_collected s v p));
  }
  serve-Inv s request key no_task v p m = record {
    distinct = v.distinct;
    registered = v.registered;
    closed = λ ids e. absurd (cc (not_collected s v p));
  }
  serve-Inv s request key (task (pipeline_run id)) v p m =
      let apart = fresh s request id m in
      record {
        distinct = unfold start_pipeline in (apart, v.distinct);
        registered =
            unfold start_pipeline in
            (
              start_registers s id key (not_collected s v p),
              All-map2 s.runs (start_keeps s id key) apart v.registered,
            );
        closed = λ ids e. unfold start_pipeline in absurd (cc (not_collected s v p));
      }
  serve-Inv s request key (task (pipeline_cancel ids)) v p m =
      let frame = cancel_pipelines_frame s ids in
      record {
        distinct = rw frame.0 v.distinct;
        registered = rw frame.0 (All-map1 s.runs (cancels-Registered s ids) v.registered);
        closed = λ l e. absurd (cc (frame.1, not_collected s v p));
      }
  serve-Inv s request key (task (runner_terminate text)) v p m = record {
    distinct = ground (arith, v.distinct);
    registered = elim (Bool-cases s.alive) [
      | inl on ↦ rw on v.registered
      | inr off ↦ rw off v.registered
    ];
    closed = λ ids e. ground (arith, not_collected s v p);
  }
  serve-Inv s request key (task unexpected) v p m = record {
    distinct = v.distinct;
    registered = v.registered;
    closed = λ ids e. absurd (cc (not_collected s v p));
  }

  -- The loop goes on without touching the pipelines.
  moved_loop :
      {s : Scheduler} {loop : LoopPhase} {ssh_key : Option Key} {alive : Bool}
      → Inv s
      → s.loop ≢ ended
      → Inv (record s { loop = loop; ssh_key = ssh_key; alive = alive })
  moved_loop {s} v goes = record {
    distinct = v.distinct;
    registered = v.registered;
    closed = λ ids e. absurd (cc (e, not_collected s v goes));
  }

  Inv-step : {s t : Scheduler} → Step max Master Factory s t → Inv s → Inv t
  unfolding ask stop collect cancel_next check_context miss_key resume
  Inv-step (generates key f e) v =
      rw e (record { distinct = v.distinct; registered = v.registered; closed = v.closed })
  Inv-step {s} {t} (asks d e) v = record {
    distinct = subst DistinctIds (ground arith) v.distinct;
    registered = asked_registered;
    closed = λ ids q. absurd (cc (d, v.closed ids (ground arith)));
  }
    where
      asked_runs : t.runs ≡ s.runs
      asked_runs = ground arith

      asked_one : (r : Run) → Registered s r → Registered t r
      asked_one r h q = elim (h q) [
        | inl c ↦ inl (ground (arith, c))
        | inr l ↦ inr (record {
          cancelable = ground (arith, l.cancelable);
          known = ground (arith, l.known);
          queued = ground (arith, l.queued);
        })
      ]

      asked_registered : All (Registered t) t.runs
      asked_registered = rw asked_runs (All-map1 s.runs asked_one v.registered)
  Inv-step (serves request key reply d p k m e) v =
      rw e (serve-Inv _ request key reply v (λ q. cc (d, q)) m)
  Inv-step (looks d e) v = rw e (moved_loop v (λ q. cc (d, q)))
  Inv-step (misses d k c e) v = rw e (moved_loop v (λ q. cc (d, q)))
  Inv-step (wakes d e) v = rw e (moved_loop v (λ q. cc (d, q)))
  Inv-step (returns d c e) v = rw e (moved_loop v (λ q. cc (d, q)))
  Inv-step (resumes d c e) v = rw e (moved_loop v (λ q. cc (d, q)))
  Inv-step {s} (leaves before r after e e') v = rw e' (leave-Inv s before r after r.phase e v)
  Inv-step {s} (stops e) v =
      rw e (record { distinct = v.distinct; registered = v.registered; closed = v.closed })
  Inv-step {s} (collects d p n e) v = rw e (record {
    distinct = v.distinct;
    registered = All-map1 s.runs (collect-Registered s) v.registered;
    closed = λ ids q. p;
  })
  Inv-step {s} (cancels id ids p e) v =
      let frame = cancel_next_frame s id ids in
      rw e (record {
        distinct = subst DistinctIds (sym frame.0) v.distinct;
        registered =
            subst (All (Registered (cancel_next s id ids))) (sym frame.0)
              (All-map1 s.runs (λ r. cancel_next-Registered s id ids r p) v.registered);
        closed = λ list q. frame.1 ∙ v.closed (id ∷ ids) p;
      })

  Inv-Reach : {s : Scheduler} → Reach max Master Factory s → Inv s
  Inv-Reach start = record { distinct = tt; registered = tt; closed = λ ids e. cc }
  Inv-Reach (next r st) = Inv-step st (Inv-Reach r)

  -- When the shutdown has gone through its identifiers, the context of every pipeline that still
  -- runs is canceled, provided the master never sends a pipeline under the identifier of one whose
  -- goroutine is still there.
  pub shutdown_cancels_all :
      {s : Scheduler} (before : List Run) (r : Run) (after : List Run)
      → Reach max Master Factory s
      → s.shutdown_ids ≡ some []
      → s.runs ≡ before ++ r ∷ after
      → r.phase ≡ running
      → IsCanceled s r
  shutdown_cancels_all {s} before r after reached e runs p =
      let all = subst (All (Registered s)) runs (Inv-Reach reached).registered in
      elim ((All-split (Registered s) before (r ∷ after) all).1.0 p) [
        | inl c ↦ c
        | inr l ↦ absurd (subst (λ o. Queued o r.id) e l.queued)
      ]
