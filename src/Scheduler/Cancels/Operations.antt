-- ===== src/Scheduler/Cancels/Operations.antt =====
-- What cancelling and starting does to these entries.
use snake_runner.Base.{
  ℤ, int_eq, int_beq, int_beq_iff, List, [], ◌∷◌, none, some, true, false, Bool-cases, Any,
  lookup-insert, ◌≡◌, sym, subst, inl, inr, arith,
}
use snake_runner.SafeMap.{delete}
use snake_runner.SafeMap.Laws.{load-delete, range-collect_key, Any-keys}
use snake_runner.Scheduler.{
  Key, running, Run, Scheduler, get_pipelines, start_pipeline, cancel_pipeline, cancel_pipelines,
  collect, cancel_next,
}
use snake_runner.Scheduler.Cancels.Entries.{IsCanceled, Queued, Listed, Registered, Other}

-- The entries of another identifier are as before.
pub Other-removed :
    (s : Scheduler) (id : ℤ) (r : Run)
    → Other id r
    → Registered s r
    → Registered (record s { cancels = delete s.cancels id }) r
Other-removed s id r o h p = elim (h p) [
  | inl c ↦ inl c
  | inr l ↦ inr (record {
    cancelable = ground (arith, load-delete s.cancels id r.id, int_beq_iff id r.id, l.cancelable);
    known = l.known;
    queued = l.queued;
  })
]

pub Other-forgotten :
    (s : Scheduler) (id : ℤ) (r : Run)
    → Other id r
    → Registered s r
    → Registered (record s { pipelines_map = delete s.pipelines_map id }) r
Other-forgotten s id r o h p = elim (h p) [
  | inl c ↦ inl c
  | inr l ↦ inr (record {
    cancelable = l.cancelable;
    known = ground (arith, load-delete s.pipelines_map id r.id, int_beq_iff id r.id, l.known);
    queued = l.queued;
  })
]

-- Canceling an identifier cancels the run listed under it, and keeps every other one listed.
pub cancel_hits :
    (s : Scheduler) (id : ℤ) (r : Run)
    → int_beq id r.id ≡ true
    → Listed s r
    → IsCanceled (cancel_pipeline s id) r
unfolding cancel_pipeline
cancel_hits s id r e l = ground (arith, int_beq_iff id r.id, l.cancelable)

pub cancel_lists :
    (s : Scheduler) (id : ℤ) (r : Run)
    → int_beq id r.id ≡ false
    → Listed s r
    → Listed (cancel_pipeline s id) r
unfolding cancel_pipeline
cancel_lists s id r e l = record {
  cancelable = ground (arith, l.cancelable, load-delete s.cancels id r.id);
  known = ground (arith, l.known, load-delete s.pipelines_map id r.id);
  queued = ground (arith, l.queued);
}

pub cancel-IsCanceled :
    (s : Scheduler) (id : ℤ) (r : Run) → IsCanceled s r → IsCanceled (cancel_pipeline s id) r
unfolding cancel_pipeline
cancel-IsCanceled s id r c = ground (arith, c)

pub cancel-Registered :
    (s : Scheduler) (id : ℤ) (r : Run) → Registered s r → Registered (cancel_pipeline s id) r
cancel-Registered s id r h p = elim (h p) [
  | inl c ↦ inl (cancel-IsCanceled s id r c)
  | inr l ↦ elim (Bool-cases (int_beq id r.id)) [
    | inl hit ↦ inl (cancel_hits s id r hit l)
    | inr miss ↦ inr (cancel_lists s id r miss l)
  ]
]

pub cancels-Registered :
    (s : Scheduler) (ids : List ℤ) (r : Run)
    → Registered s r
    → Registered (cancel_pipelines s ids) r
unfolding cancel_pipelines
cancels-Registered s [] r h = h
cancels-Registered s (id ∷ ids) r h =
    cancels-Registered (cancel_pipeline s id) ids r (cancel-Registered s id r h)

pub cancel_next-Registered :
    (s : Scheduler) (id : ℤ) (ids : List ℤ) (r : Run)
    → s.shutdown_ids ≡ some (id ∷ ids)
    → Registered s r
    → Registered (cancel_next s id ids) r
unfolding cancel_next
cancel_next-Registered s id ids r e h p = elim (h p) [
  | inl c ↦ inl (cancel-IsCanceled s id r c)
  | inr l ↦ elim (Bool-cases (int_beq id r.id)) [
    | inl hit ↦ inl (cancel_hits s id r hit l)
    | inr miss ↦
        let kept = cancel_lists s id r miss l in
        inr (record {
          cancelable = kept.cancelable;
          known = kept.known;
          queued = later (subst (λ o. Queued o r.id) e l.queued) miss;
        })
  ]
]
  where
    later :
        Any (λ k. int_beq k r.id ≡ true) (id ∷ ids)
        → int_beq id r.id ≡ false
        → Any (λ k. int_beq k r.id ≡ true) ids
    later (inl q) miss = absurd (cc)
    later (inr q) miss = q

-- The identifiers that the shutdown collects are those of all listed runs.
pub collect-Registered : (s : Scheduler) (r : Run) → Registered s r → Registered (collect s) r
unfolding collect get_pipelines
collect-Registered s r h p = elim (h p) [
  | inl c ↦ inl c
  | inr l ↦ inr (record {
    cancelable = l.cancelable;
    known = l.known;
    queued =
        rw (range-collect_key s.pipelines_map [])
          (Any-keys s.pipelines_map r.id (λ e. cc (l.known)));
  })
]

-- The run that a task starts is listed, and the others stay so.
pub start_registers :
    (s : Scheduler) (id : ℤ) (key : Key)
    → s.shutdown_ids ≡ none
    → Registered
        (start_pipeline s id key)
        (record { id = id; ctx = s.next_ctx; key = key; phase = running })
unfolding start_pipeline
start_registers s id key e p = inr (record {
  cancelable = ground (arith, lookup-insert id id s.next_ctx s.cancels, int_beq_iff id id);
  known = ground (arith, lookup-insert id id tt s.pipelines_map, int_beq_iff id id);
  queued = subst (λ o. Queued o id) (sym e) tt;
})

pub start_keeps :
    (s : Scheduler) (id : ℤ) (key : Key) (r : Run)
    → Other id r
    → Registered s r
    → Registered (start_pipeline s id key) r
unfolding start_pipeline
start_keeps s id key r o h p = elim (h p) [
  | inl c ↦ inl c
  | inr l ↦ inr (record {
    cancelable =
        ground
          (arith, lookup-insert id r.id s.next_ctx s.cancels, int_beq_iff id r.id, l.cancelable);
    known = ground (arith, lookup-insert id r.id tt s.pipelines_map, int_beq_iff id r.id, l.known);
    queued = l.queued;
  })
]
