-- ===== src/Sidecar/Shell/Traces.antt =====
-- What `Serve` and `Destroy` leave on the host.
use snake_runner.Base.{
  Text, codes, List, [], ◌∷◌, ◌++◌, Option-cases, none, some, Bool, true, false, if◌then◌else◌, ◌≡◌,
  refl, ap, ◌∙◌, inl, inr,
}
use snake_runner.Errors.{Error}
use snake_runner.Sidecar.{
  Host, Call, prepares, makes_temp_dir, makes_dir, creates, starts_agent, writes_file, prompts,
  execs, destroys, waits_agent, removes_dir, ServeOptions, join_known_hosts,
}
use snake_runner.Sidecar.Shell.{
  Builder, Place, Shell, new_shell, Ended, and_then, under, ShellStep, show_prompt, call,
  start_agent, run_step, run_steps, base, git, socket, known_hosts, steps, prepare, serve,
  destroy_container, wait_agent, destroy,
}

-- The directories that the calls remove.
abbrev pub removed : List Call → List Text
removed [] = []
removed (removes_dir path ∷ calls) = path ∷ removed calls
removed (_ ∷ calls) = removed calls

removed-append : (xs ys : List Call) → removed (xs ++ ys) ≡ removed xs ++ removed ys
removed-append [] ys = refl
removed-append (prepares i ∷ xs) ys = removed-append xs ys
removed-append (makes_temp_dir ∷ xs) ys = removed-append xs ys
removed-append (makes_dir p ∷ xs) ys = removed-append xs ys
removed-append (creates n v ∷ xs) ys = removed-append xs ys
removed-append (starts_agent p ∷ xs) ys = removed-append xs ys
removed-append (writes_file p t ∷ xs) ys = removed-append xs ys
removed-append (prompts c ∷ xs) ys = removed-append xs ys
removed-append (execs e ∷ xs) ys = removed-append xs ys
removed-append (destroys ∷ xs) ys = removed-append xs ys
removed-append (waits_agent ∷ xs) ys = removed-append xs ys
removed-append (removes_dir p ∷ xs) ys = ap (◌∷◌ p) (removed-append xs ys)

-- The sidecar works in this directory, and has removed nothing.
abbrev HasRemoved : List Text → Text → Shell → Type 0
HasRemoved paths dir s = (removed s.calls ≡ paths) × (s.base_dir ≡ dir)

removed_either :
    (dir : Text) (b : Bool) (s t : Shell)
    → HasRemoved [] dir s
    → HasRemoved [] dir t
    → HasRemoved [] dir (if b then s else t)
removed_either dir true s t h k = h
removed_either dir false s t h k = k

removed_then :
    (dir : Text) (e : Ended) (go : Shell → Ended)
    → HasRemoved [] dir e.0
    → ((s : Shell) → HasRemoved [] dir s → HasRemoved [] dir (go s).0)
    → HasRemoved [] dir (and_then e go).0
removed_then dir (s, none) go h g = g s h
removed_then dir (s, some error) go h g = h

module _ (host : Host) where
  -- A call that removes nothing and sets other fields only.
  removed-call :
      (dir : Text) (s : Shell) (c : Call) (put : Error → Error) (set : Shell → Shell)
      → removed (c ∷ []) ≡ []
      → ((t : Shell) → HasRemoved [] dir t → HasRemoved [] dir (set t))
      → HasRemoved [] dir s
      → HasRemoved [] dir (call host s c put set).0
  unfolding call
  removed-call dir s c put set q keep h = elim (Option-cases (host s.calls c)) [
    | inl e ↦ rw (e, call) (keep (record s { calls = s.calls ++ c ∷ [] }) made)
    | inr (error, e) ↦ rw (e, call) made
  ]
    where
      made : HasRemoved [] dir (record s { calls = s.calls ++ c ∷ [] })
      made = (removed-append s.calls (c ∷ []) ∙ rw (h.0, q) refl, h.1)

  removed_prompt :
      (dir : Text) (step : ShellStep) (s : Shell)
      → HasRemoved [] dir s
      → HasRemoved [] dir (show_prompt step s)
  unfolding show_prompt
  removed_prompt dir step s h =
      removed_either dir step.prompt _ s
        (removed-append s.calls (prompts step.exec.cmd ∷ []) ∙ rw h.0 refl, h.1) h

  removed_steps :
      (dir : Text) (todo : List ShellStep) (s : Shell)
      → HasRemoved [] dir s
      → HasRemoved [] dir (run_steps host todo s).0
  unfolding run_steps run_step
  removed_steps dir [] s h = h
  removed_steps dir (step ∷ todo) s h =
      removed_then dir (run_step host step s) (run_steps host todo)
        (removed-call dir (show_prompt step s) (execs step.exec)
          (under (codes "unable to setup repository")) (λ t. t) refl (λ t k. k)
          (removed_prompt dir step s h))
        (removed_steps dir todo)

  module _ (place : Place) (b : Builder) where
    removed_prepare :
        (opts : ServeOptions) (dir : Text) (s : Shell)
        → HasRemoved [] dir s
        → HasRemoved [] dir (prepare host place b opts s).0
    unfolding prepare start_agent
    removed_prepare opts dir s h =
        removed_then dir (start_agent host (socket host place b) s) _
          (removed-call dir (record s { ssh_agent = true }) (starts_agent (socket host place b)) _
            (λ t. record t { ssh_socket = socket host place b }) refl (λ t k. k) h)
          (λ t k.
            removed_then dir
              (call host (record t { ssh_known_hosts = known_hosts host place b })
                (writes_file (known_hosts host place b) (join_known_hosts opts.known_hosts))
                (under (codes "unable to save known hosts file")) (λ s. s))
              (run_steps host (steps host place b opts))
              (removed-call dir (record t { ssh_known_hosts = known_hosts host place b }) _ _
                (λ s. s) refl (λ u l. l) k)
              (removed_steps dir (steps host place b opts)))

    removed_create :
        (opts : ServeOptions) (dir : Text) (s : Shell)
        → HasRemoved [] dir s
        → HasRemoved [] dir
            (and_then
              (call host s
                (creates (codes "snake-runner-sidecar-" ++ b.name) [])
                (λ e. e)
                (λ s. record s { container = true }))
              (prepare host place b opts)).0
    removed_create opts dir s h =
        removed_then dir
          (call host s (creates (codes "snake-runner-sidecar-" ++ b.name) []) (λ e. e)
            (λ s. record s { container = true }))
          (prepare host place b opts)
          (removed-call dir s (creates _ []) (λ e. e) (λ s. record s { container = true }) refl
            (λ t k. k) h)
          (removed_prepare opts dir)

    removed_serve :
        (opts : ServeOptions)
        → HasRemoved [] (base host place b) (serve host place b opts new_shell).0
    unfolding serve
    removed_serve opts =
        removed_then (base host place b)
          (call host (record new_shell { base_dir = base host place b; git_dir = git host place b })
            makes_temp_dir (under (codes "unable to obtain temporary directory"))
            (λ s. record s { temp_dir = place.temp_dir }))
          _
          (removed-call (base host place b)
            (record new_shell { base_dir = base host place b; git_dir = git host place b })
            makes_temp_dir _ (λ s. record s { temp_dir = place.temp_dir }) refl (λ t k. k)
            (refl, refl))
          (λ t k.
            removed_then (base host place b)
              (call host t (makes_dir (git host place b))
                (under (codes "unable to create directory for git")) (λ s. s))
              _
              (removed-call (base host place b) t (makes_dir (git host place b)) _ (λ s. s) refl
                (λ u l. l) k)
              (removed_create opts (base host place b)))

  removed_last :
      (dir : Text) (s : Shell)
      → HasRemoved [] dir s
      → removed (call host s (removes_dir s.base_dir) (λ e. e) (λ s. s)).0.calls ≡ dir ∷ []
  unfolding call
  removed_last dir s h = elim (Option-cases (host s.calls (removes_dir s.base_dir))) [
    | inl e ↦
        rw (e, call) (removed-append s.calls (removes_dir s.base_dir ∷ []) ∙ rw (h.0, h.1) refl)
    | inr (error, e) ↦
        rw (e, call) (removed-append s.calls (removes_dir s.base_dir ∷ []) ∙ rw (h.0, h.1) refl)
  ]

  removed_container :
      (dir : Text) (s : Shell) → HasRemoved [] dir s → HasRemoved [] dir (destroy_container host s)
  unfolding destroy_container
  removed_container dir s h =
      removed_either dir s.container _ s
        (removed-call dir s destroys (λ e. e) (λ s. s) refl (λ t k. k) h) h

  removed_agent :
      (dir : Text) (s : Shell) → HasRemoved [] dir s → HasRemoved [] dir (wait_agent host s)
  unfolding wait_agent
  removed_agent dir s h =
      removed_either dir s.ssh_agent _ s
        (removed-call dir s waits_agent (λ e. e) (λ s. s) refl (λ t k. k) h) h

  removed-destroy :
      (dir : Text) (s : Shell) → HasRemoved [] dir s → removed (destroy host s).calls ≡ dir ∷ []
  unfolding destroy
  removed-destroy dir s h =
      removed_last dir _ (removed_agent dir (destroy_container host s) (removed_container dir s h))

  -- Wherever `Serve` ends, after `Destroy` the pipeline's directory is the one directory that was
  -- removed: the temporary directory, with the known hosts, is left on the host.
  pub destroy_removes :
      (place : Place) (b : Builder) (opts : ServeOptions)
      → removed (destroy host (serve host place b opts new_shell).0).calls ≡ base host place b ∷ []
  destroy_removes place b opts =
      removed-destroy (base host place b) (serve host place b opts new_shell).0
        (removed_serve place b opts)
