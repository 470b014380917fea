-- ===== src/Sidecar/Cloud/End.antt =====
-- `Destroy` of a sidecar, wherever `Serve` ended.
use snake_runner.Base.{
  Text, codes, List, [], ◌∷◌, ◌++◌, Option-cases, none, some, true, false, is_empty, if◌then◌else◌,
  ◌≡◌, ◌≢◌, ◌↔◌, refl, sym, ◌∙◌, inl, inr, arith,
}
use snake_runner.Sidecar.{Host, Call, prepares, creates, execs, destroys, Exec, ServeOptions}
use snake_runner.Sidecar.Cloud.{
  Builder, Cloud, new_cloud, Ended, and_then, call, start_agent, create_container, create,
  run_commands, serve, wait_agent, clean_dir, destroy, sidecar_image, serve_volumes, make_dirs,
  socket_path, known_hosts_path, prepare_exec, git_commands, clean_up,
}

agent_then :
    (e : Ended) (go : Cloud → Ended)
    → e.0.ssh_agent ≡ true
    → ((s : Cloud) → s.ssh_agent ≡ true → (go s).0.ssh_agent ≡ true)
    → (and_then e go).0.ssh_agent ≡ true
agent_then (s, none) go a g = g s a
agent_then (s, some error) go a g = a

module _ (host : Host) (b : Builder) where
  run_commands_agent :
      (commands : List Exec) (s : Cloud)
      → s.ssh_agent ≡ true
      → (run_commands host b commands s).0.ssh_agent ≡ true
  unfolding run_commands call
  run_commands_agent [] s a = a
  run_commands_agent (command ∷ commands) s a =
      agent_then _ (run_commands host b commands) a (run_commands_agent commands)

  start_agent_agent : (socket : Text) (s : Cloud) → (start_agent host socket s).0.ssh_agent ≡ true
  unfolding start_agent call
  start_agent_agent socket s = agent_then _ _ refl (λ t a. a)

  destroy_quiet : (s : Cloud) → s.ssh_agent ≡ true → (destroy host b s).1 ≡ false
  unfolding destroy clean_dir call wait_agent
  destroy_quiet s a = ground arith

  -- `Serve` from the preparation on, and from the ssh-agent's start on.
  prepared : ServeOptions → Cloud → Ended
  prepared opts s =
      and_then
        (call host (record s { ssh_known_hosts = known_hosts_path host b })
          (execs (prepare_exec host b opts)) (codes "unable to prepare sidecar container"))
        (run_commands host b (git_commands host b opts))

  served : ServeOptions → Cloud → Ended
  unfolding prepared
  served opts s = and_then (start_agent host (socket_path host b) s) (prepared opts)

  prepared_agent :
      (opts : ServeOptions) (s : Cloud) → s.ssh_agent ≡ true → (prepared opts s).0.ssh_agent ≡ true
  unfolding prepared call
  prepared_agent opts s a =
      agent_then
        (call host (record s { ssh_known_hosts = known_hosts_path host b })
          (execs (prepare_exec host b opts)) (codes "unable to prepare sidecar container"))
        (run_commands host b (git_commands host b opts)) a
        (run_commands_agent (git_commands host b opts))

  served_quiet : (opts : ServeOptions) (s : Cloud) → (destroy host b (served opts s).0).1 ≡ false
  unfolding served
  served_quiet opts s = destroy_quiet (served opts s).0 (
      agent_then (start_agent host (socket_path host b) s) (prepared opts)
        (start_agent_agent (socket_path host b) s) (prepared_agent opts))

  -- The calls when `Destroy` comes to the container, where the directories could not be made.
  abbrev pub with_dirs : List Call
  with_dirs =
      prepares sidecar_image
      ∷ creates (codes "snake-runner-sidecar-" ++ b.name) (serve_volumes host b)
      ∷ execs (make_dirs host b)
      ∷ []

  abbrev pub cleaned : List Call
  cleaned = with_dirs ++ (if is_empty b.name then [] else execs (clean_up host b) ∷ [])

  -- The container is created, and making the directories in it fails.
  abbrev pub DirsFail : Type 0
  DirsFail =
      (host [] (prepares sidecar_image) ≡ none)
      × (host (prepares sidecar_image ∷ [])
            (creates (codes "snake-runner-sidecar-" ++ b.name) (serve_volumes host b))
          ≡ none)
      × (host
            (prepares sidecar_image
              ∷ creates (codes "snake-runner-sidecar-" ++ b.name) (serve_volumes host b)
              ∷ [])
            (execs (make_dirs host b))
          ≢ none)

  -- `Destroy` behind a `Serve` panics if and only if the container was created, the directories in
  -- it could not be made, and the container can be destroyed: then there is no wait group.
  pub destroy_panics :
      (opts : ServeOptions)
      → ((destroy host b (serve host b opts new_cloud).0).1 ≡ true)
        ↔ (DirsFail × (host cleaned destroys ≡ none))
  unfolding serve served prepared create create_container call destroy clean_dir wait_agent
  destroy_panics opts =
      let made = creates (codes "snake-runner-sidecar-" ++ b.name) (serve_volumes host b) in
      elim (Option-cases (host [] (prepares sidecar_image))) [
        | inr (error, p) ↦ rw p (cc, λ h. absurd (ground arith))
        | inl p ↦ elim (Option-cases (host (prepares sidecar_image ∷ []) made)) [
          | inr (error, q) ↦ rw p (rw q (cc, λ h. absurd (ground arith)))
          | inl q ↦
              elim (Option-cases
                (host (prepares sidecar_image ∷ made ∷ []) (execs (make_dirs host b)))) [
                  | inl r ↦ rw p (
                      rw q (
                        rw r (
                          λ t.
                              let no : true ≡ false =
                                sym t
                                ∙ served_quiet opts
                                    (record new_cloud { container = true; calls = with_dirs }) in
                              absurd (cc no),
                          λ h. absurd (ground arith),
                        )))
                  | inr (error, r) ↦ rw p (rw q (rw r (ground arith)))
                ]
        ]
      ]
