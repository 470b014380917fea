-- ===== src/Scheduler/Keys.antt =====
-- The ssh keys of the pipelines.
use snake_runner.Base.{
  ℤ, List, [], ◌∷◌, Option, none, some, Bool-cases, All, ◌≡◌, ◌≢◌, refl, subst, inl, inr, arith,
}
use snake_runner.Scheduler.{
  Key, RunPhase, running, left, counted, uncancelled, Run, Request, pipeline_run, pipeline_cancel,
  runner_terminate, unexpected, Reply, failed, no_task, task, Scheduler, end_task, resume,
  check_context, miss_key, start_pipeline, cancel_pipeline, cancel_pipelines, serve_task, ask,
  serve, leave, stop, collect, cancel_next,
}
use snake_runner.Scheduler.Steps.{
  Step, generates, looks, asks, misses, serves, wakes, returns, resumes, leaves, stops, collects,
  cancels, Reach, start, next,
}
use snake_runner.Scheduler.KeySets.{
  DistinctKeys, Inv, generate-Inv, take-Inv, drop-Inv, use-Inv, Keeps, leave-Inv,
}

-- A key that the factory generates is none of those that are held, queued or used.
abbrev pub FreshKeys : (Scheduler → Key → Type 0) → Type 0
FreshKeys Factory =
    (s : Scheduler) (key : Key)
    → Factory s key
    → (s.ssh_key ≢ some key) × All (λ k. k ≢ key) s.queue × All (λ r. r.key ≢ key) s.runs

abbrev KeysDiffer : Scheduler → Type 0
KeysDiffer s = Inv s.ssh_key s.queue s.runs

cancel_keys :
    (s : Scheduler) (ids : List ℤ)
    → ((cancel_pipelines s ids).runs ≡ s.runs) × ((cancel_pipelines s ids).queue ≡ s.queue)
unfolding cancel_pipelines
cancel_keys s [] = (refl, refl)
cancel_keys s (id ∷ ids) = ground (arith, cancel_keys (cancel_pipeline s id) ids)

cancel_next_keys :
    (s : Scheduler) (id : ℤ) (ids : List ℤ)
    → ((cancel_next s id ids).ssh_key ≡ s.ssh_key)
      × ((cancel_next s id ids).queue ≡ s.queue)
      × ((cancel_next s id ids).runs ≡ s.runs)
unfolding cancel_next
cancel_next_keys s id ids = ground arith

leave_same :
    (s : Scheduler) (r : Run)
    → ((leave s r r.phase).0.ssh_key ≡ s.ssh_key) × ((leave s r r.phase).0.queue ≡ s.queue)
unfolding leave
leave_same s r = ground arith

leave-Keeps : (s : Scheduler) (r : Run) (phase : RunPhase) → Keeps r (leave s r phase).1
unfolding leave
leave-Keeps s r running = refl
leave-Keeps s r left = refl
leave-Keeps s r counted = refl
leave-Keeps s r uncancelled = tt

ask-Inv :
    (max : ℤ) (s t : Scheduler) (held : Option Key) (queue : List Key)
    → s.ssh_key ≡ held
    → s.queue ≡ queue
    → ask max s ≡ some t
    → Inv held queue s.runs
    → KeysDiffer t
unfolding ask
ask-Inv max s t (some key) queue h q e v =
    let same : (t.ssh_key ≡ some key) × (t.queue ≡ queue) × (t.runs ≡ s.runs) = ground arith in
    rw (same.0, same.1, same.2) v
ask-Inv max s t none [] h q e v = absurd (ground arith)
ask-Inv max s t none (key ∷ queue) h q e v =
    let taken = take-Inv key queue s.runs v in
    let same : (t.ssh_key ≡ some key) × (t.queue ≡ queue) × (t.runs ≡ s.runs) = ground arith in
    rw (same.0, same.1, same.2) taken

serve_keys :
    (s : Scheduler) (key : Key) (reply : Reply)
    → s.ssh_key ≡ some key
    → KeysDiffer s
    → KeysDiffer (serve s key reply)
unfolding serve serve_task start_pipeline end_task resume
serve_keys s key (failed error) h v = drop-Inv s.ssh_key s.queue s.runs v
serve_keys s key no_task h v = v
serve_keys s key (task (pipeline_run id)) h v =
    use-Inv key _ s.queue s.runs refl (subst (λ o. Inv o s.queue s.runs) h v)
serve_keys s key (task (pipeline_cancel ids)) h v =
    let same = cancel_keys s ids in rw (same.0, same.1) (drop-Inv s.ssh_key s.queue s.runs v)
serve_keys s key (task (runner_terminate text)) h v = elim (Bool-cases s.alive) [
  | inl on ↦ rw on v
  | inr off ↦ rw off (drop-Inv s.ssh_key s.queue s.runs v)
]
serve_keys s key (task unexpected) h v = drop-Inv s.ssh_key s.queue s.runs v

module _ (max : ℤ) (Master : Scheduler → Request → Reply → Type 0)
    (Factory : Scheduler → Key → Type 0) (fresh : FreshKeys Factory) where
  keys_step : {s t : Scheduler} → Step max Master Factory s t → KeysDiffer s → KeysDiffer t
  unfolding stop collect check_context miss_key resume
  keys_step {s} (generates key f e) v =
      let new = fresh s key f in
      rw e (generate-Inv s.ssh_key s.queue s.runs key new.0 new.1 new.2 v)
  keys_step {s} {t} (asks d e) v = ask-Inv max s t s.ssh_key s.queue refl refl e v
  keys_step {s} (serves request key reply d p k m e) v = rw e (serve_keys s key reply k v)
  keys_step (looks d e) v = rw e v
  keys_step (misses d k c e) v = rw e v
  keys_step (wakes d e) v = rw e v
  keys_step (returns d c e) v = rw e v
  keys_step {s} (resumes d c e) v = rw e (drop-Inv s.ssh_key s.queue s.runs v)
  keys_step {s} (leaves before r after e e') v =
      let same = leave_same s r in
      rw (e', same.0, same.1)
        (leave-Inv s.ssh_key s.queue before r (leave s r r.phase).1 after (leave-Keeps s r r.phase)
          (subst (Inv s.ssh_key s.queue) e v))
  keys_step (stops e) v = rw e v
  keys_step (collects d p n e) v = rw e v
  keys_step {s} (cancels id ids p e) v =
      let same = cancel_next_keys s id ids in rw (e, same.0, same.1, same.2) v

  keys-Reach : {s : Scheduler} → Reach max Master Factory s → KeysDiffer s
  keys-Reach start = record { used = tt; queued = tt; apart = tt; held_apart = tt }
  keys-Reach (next r st) = keys_step st (keys-Reach r)

  -- Where every generated key is new, no two pipelines that run have the same key.
  pub keys_differ : {s : Scheduler} → Reach max Master Factory s → DistinctKeys s.runs
  keys_differ r = (keys-Reach r).used
