-- ===== src/Env/Order.antt =====
-- Which of several settings of a variable a job sees.
use snake_runner.Base.{
  Text, text_eq, text_beq_iff, text_differ, codes, List, [], ◌∷◌, ◌++◌, some, lookup, insert,
  lookup-insert, All, ◌≡◌, ◌≢◌, refl, ◌∙◌, arith,
}
use snake_runner.Env.{
  Builder, Vars, pair_list, expander, set_expanded, before_job, build, known_hosts_key, git_ssh_key,
}
use snake_runner.Env.Expand.{expand}

insert_other :
    (key other : Text) (value : Text) (vars : Vars)
    → other ≢ key
    → lookup key (insert other value vars) ≡ lookup key vars
insert_other key other value vars h =
    ground (arith, lookup-insert other key value vars, text_beq_iff other key)

insert_same : (key value : Text) (vars : Vars) → lookup key (insert key value vars) ≡ some value
insert_same key value vars = ground (arith, lookup-insert key key value vars, text_beq_iff key key)

module _ (getenv : Text → Text) (quote : List Text → Text) where
  set_expanded-append :
      (xs ys : List (Text × Text)) (vars : Vars)
      → set_expanded getenv quote (xs ++ ys) vars
        ≡ set_expanded getenv quote ys (set_expanded getenv quote xs vars)
  unfolding set_expanded
  set_expanded-append [] ys vars = refl
  set_expanded-append ((key, value) ∷ xs) ys vars =
      set_expanded-append xs ys (insert key (expand (expander getenv quote vars) value) vars)

  set_expanded_other :
      (key : Text) (xs : List (Text × Text)) (vars : Vars)
      → All (λ x. x.0 ≢ key) xs
      → lookup key (set_expanded getenv quote xs vars) ≡ lookup key vars
  unfolding set_expanded
  set_expanded_other key [] vars h = refl
  set_expanded_other key ((other, value) ∷ xs) vars h =
      set_expanded_other key xs (insert other (expand (expander getenv quote vars) value) vars) h.1
      ∙ insert_other key other (expand (expander getenv quote vars) value) vars h.0

  -- Of the variables that the job's configuration sets, the last one with a name is the one that
  -- the job sees, over those of the task, of the pipeline and of the runner, and its value is
  -- expanded with what is set in front of it. The names GIT_SSH_COMMAND and
  -- CI_SSH_KNOWN_HOSTS_FILE are excepted.
  pub job_variable_wins :
      (b : Builder) (before after : List (Text × Text)) (key value : Text)
      → pair_list b.job_variables ≡ before ++ (key, value) ∷ after
      → All (λ x. x.0 ≢ key) after
      → git_ssh_key ≢ key
      → known_hosts_key ≢ key
      → lookup key (build getenv quote b)
        ≡ some (
            expand
              (expander getenv quote (set_expanded getenv quote before (before_job getenv quote b)))
              value)
  unfolding build set_expanded
  job_variable_wins b before after key value e last git known =
      insert_other key known_hosts_key b.ssh_known_hosts_path _ known
      ∙ (insert_other key git_ssh_key _ _ git
          ∙ (rw (e, set_expanded-append before ((key, value) ∷ after) (before_job getenv quote b))
              (set_expanded_other key after _ last ∙ insert_same key _ _)))

  -- No variable of the user hides the path of the known hosts, nor the command that git is to use.
  pub reserved_variables :
      (b : Builder)
      → (lookup known_hosts_key (build getenv quote b) ≡ some b.ssh_known_hosts_path)
        × (lookup git_ssh_key (build getenv quote b)
            ≡ some (
                quote
                  (codes "ssh" ∷ (codes "-oGlobalKnownHostsFile=" ++ b.ssh_known_hosts_path) ∷ [])))
  unfolding build
  reserved_variables b = (
    insert_same known_hosts_key b.ssh_known_hosts_path _,
    insert_other git_ssh_key known_hosts_key b.ssh_known_hosts_path _
          (text_differ known_hosts_key git_ssh_key refl)
        ∙ insert_same git_ssh_key _ _,
  )
