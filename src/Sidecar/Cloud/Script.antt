-- ===== src/Sidecar/Cloud/Script.antt =====
-- The calls of `Serve` and `Destroy` against the script that they follow, and the file that
-- `ReadFile` returns.
use snake_runner.Base.{
  Text, codes, List, [], ◌∷◌, ◌++◌, append_assoc, append-nil, Option-cases, none, some, true, ◌≡◌,
  refl, sym, ap, ◌∙◌, inl, inr,
}
use snake_runner.Sidecar.{
  Host, Call, prepares, creates, starts_agent, prompts, execs, Exec, ServeOptions,
}
use snake_runner.Sidecar.Cloud.{
  Builder, Cloud, Ended, and_then, call, start_agent, create_container, create, run_commands, serve,
  sidecar_image, serve_volumes, make_dirs, socket_path, known_hosts_path, prepare_exec,
  git_commands,
}

-- The calls after `before` are a beginning of the script.
pub record IsBeginning (before script calls : List Call) : Type 0 where
  pub made : List Call
  pub left : List Call
  pub whole : made ++ left ≡ script
  pub reached : calls ≡ before ++ made

-- From the calls `before` the code has followed the script: all of it without an error, and a
-- beginning of it with one.
abbrev pub Follows : List Call → List Call → Ended → Type 0
Follows before script (s, none) = s.calls ≡ before ++ script
Follows before script (s, some error) = IsBeginning before script s.calls

Follows-behind :
    (before first rest : List Call) (e : Ended)
    → Follows (before ++ first) rest e
    → Follows before (first ++ rest) e
Follows-behind before first rest (t, none) h = h ∙ append_assoc before first rest
Follows-behind before first rest (t, some error) h = record {
  made = first ++ h.made;
  left = h.left;
  whole = append_assoc first h.made h.left ∙ ap (◌++◌ first) h.whole;
  reached = h.reached ∙ append_assoc before first h.made;
}

-- The code goes on behind a part of the script.
Follows-then :
    (before first rest : List Call) (e : Ended) (go : Cloud → Ended)
    → Follows before first e
    → ((s : Cloud) → s.calls ≡ before ++ first → Follows (before ++ first) rest (go s))
    → Follows before (first ++ rest) (and_then e go)
Follows-then before first rest (s, some error) go f g = record {
  made = f.made;
  left = f.left ++ rest;
  whole = sym (append_assoc f.made f.left rest) ∙ ap (λ l. l ++ rest) f.whole;
  reached = f.reached;
}
Follows-then before first rest (s, none) go f g = Follows-behind before first rest (go s) (g s f)

-- A change of the fields behind a part of the script.
Follows-set :
    (before script : List Call) (e : Ended) (go : Cloud → Cloud)
    → ((s : Cloud) → (go s).calls ≡ s.calls)
    → Follows before script e
    → Follows before script (and_then e (λ s. (go s, none)))
Follows-set before script (s, none) go same f = same s ∙ f
Follows-set before script (s, some error) go same f = f

module _ (host : Host) where
  -- One call: it is made, whether it fails or not.
  Follows-call :
      (before : List Call) (s : Cloud) (c : Call) (text : Text)
      → s.calls ≡ before
      → Follows before (c ∷ []) (call host s c text)
  unfolding call
  Follows-call before s c text e = elim (Option-cases (host s.calls c)) [
    | inl f ↦ rw f (ap (λ l. l ++ c ∷ []) e)
    | inr (error, f) ↦
        rw f (record { made = c ∷ []; left = []; whole = refl; reached = ap (λ l. l ++ c ∷ []) e })
  ]

  module _ (b : Builder) where
    abbrev pub prompted : List Exec → List Call
    prompted [] = []
    prompted (command ∷ commands) = prompts command.cmd ∷ execs command ∷ prompted commands

    -- All the calls of `Serve`, in order.
    abbrev pub script : ServeOptions → List Call
    script opts =
        prepares sidecar_image
        ∷ creates (codes "snake-runner-sidecar-" ++ b.name) (serve_volumes host b)
        ∷ execs (make_dirs host b)
        ∷ starts_agent (socket_path host b)
        ∷ execs (prepare_exec host b opts)
        ∷ prompted (git_commands host b opts)

    run_commands-Follows :
        (commands : List Exec) (before : List Call) (s : Cloud)
        → s.calls ≡ before
        → Follows before (prompted commands) (run_commands host b commands s)
    unfolding run_commands
    run_commands-Follows [] before s e = e ∙ sym (append-nil before)
    run_commands-Follows (command ∷ commands) before s e =
        Follows-then before (prompts command.cmd ∷ execs command ∷ []) (prompted commands) _
          (run_commands host b commands)
          (Follows-behind before (prompts command.cmd ∷ []) (execs command ∷ [])
            (call host (record s { calls = s.calls ++ prompts command.cmd ∷ [] }) (execs command)
              (codes "unable to setup repository"))
            (Follows-call (before ++ prompts command.cmd ∷ [])
              (record s { calls = s.calls ++ prompts command.cmd ∷ [] }) (execs command)
              (codes "unable to setup repository") (ap (λ l. l ++ prompts command.cmd ∷ []) e)))
          (λ t f. run_commands-Follows commands _ t f)

    abbrev creation : List Call
    creation =
        prepares sidecar_image
        ∷ creates (codes "snake-runner-sidecar-" ++ b.name) (serve_volumes host b)
        ∷ []

    create-Follows : (s : Cloud) → Follows s.calls creation (create host b s)
    unfolding create create_container
    create-Follows s =
        Follows-then s.calls (prepares sidecar_image ∷ []) (creates _ _ ∷ []) _ _
          (Follows-call s.calls s (prepares sidecar_image) _ refl)
          (λ t e.
            Follows-set (s.calls ++ prepares sidecar_image ∷ []) (creates _ _ ∷ [])
              (call host t (creates _ _) (codes "unable to create sidecar container"))
              (λ t. record t { container = true }) (λ t. refl)
              (Follows-call (s.calls ++ prepares sidecar_image ∷ []) t (creates _ _) _ e))

    start_agent-Follows :
        (socket : Text) (before : List Call) (s : Cloud)
        → s.calls ≡ before
        → Follows before (starts_agent socket ∷ []) (start_agent host socket s)
    unfolding start_agent
    start_agent-Follows socket before s e =
        Follows-set before (starts_agent socket ∷ [])
          (call host (record s { ssh_agent = true }) (starts_agent socket)
            (codes "unable to start ssh-agent"))
          (λ t. record t { ssh_socket = socket }) (λ t. refl)
          (Follows-call before (record s { ssh_agent = true }) (starts_agent socket) _ e)

    -- `Serve` makes the calls of the script in order: all of them where it returns no error, and a
    -- beginning of them where it returns one.
    pub serve-Follows :
        (opts : ServeOptions) (s : Cloud) → Follows s.calls (script opts) (serve host b opts s)
    unfolding serve
    serve-Follows opts s =
        Follows-then s.calls creation _ (create host b s) _ (create-Follows s) (λ t e.
          Follows-then _ (execs (make_dirs host b) ∷ []) _ _ _
            (Follows-call _ t (execs (make_dirs host b)) _ e)
            (λ u f.
              Follows-then _ (starts_agent (socket_path host b) ∷ []) _ _ _
                (start_agent-Follows (socket_path host b) _ u f)
                (λ v g.
                  Follows-then _ (execs (prepare_exec host b opts) ∷ []) _ _ _
                    (Follows-call _ (record v { ssh_known_hosts = known_hosts_path host b })
                      (execs (prepare_exec host b opts)) _ g)
                    (λ w h. run_commands-Follows (git_commands host b opts) _ w h))))
