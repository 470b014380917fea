-- ===== src/Env.antt =====
-- internal/env/env.go: the variables of a job. The Go map of the task's variables is given in the
-- order in which the loop visits it. `shellquote.Join` of github.com/gonuts/go-shellquote is outside
-- and `quote` stands for it, and `getenv` for the runner's own environment.
pub mod Expand
pub mod Order
use snake_runner.Base.{
  ℕ, suc, ℤ, pos, ltb, Text, text_eq, codes, itoa, List, [], ◌∷◌, ◌++◌, take, length, Option, none,
  some, Bool, true, false, lookup, insert, text_beq, leb, if◌then◌else◌,
}
use snake_runner.Snake.{Pipeline, PipelineJob}
use snake_runner.MapSlice.{Pair}
use Expand.{expand}

pub record PullRequestRef : Type 0 where
  pub hash : Text
  pub ref : Text
  pub is_fork : Bool

pub record PullRequest : Type 0 where
  pub id : ℤ
  pub title : Text
  pub state : Text
  pub from_ref : PullRequestRef
  pub to_ref : PullRequestRef
  pub is_cross_repo : Bool

-- The fields of the builder that it reads: those of the task, the configurations' variables, the
-- runner's name, and the paths.
pub record Builder : Type 0 where
  pub env : List (Text × Text)
  pub project_key : Text
  pub project_name : Text
  pub project_id : ℤ
  pub repository_slug : Text
  pub repository_name : Text
  pub repository_id : ℤ
  pub clone_url_ssh : Text
  pub pull_request : Option PullRequest
  pub pipeline : Pipeline
  pub job : PipelineJob
  pub config_variables : Option (List Pair)
  pub job_variables : Option (List Pair)
  pub runner_name : Text
  pub version : Text
  pub git_dir : Text
  pub ssh_socket_path : Text
  pub ssh_known_hosts_path : Text

abbrev pub Vars : Type 0
Vars = List (Text × Text)

-- `fmt.Sprint` of a Boolean
abbrev pub sprint : Bool → Text
sprint true = codes "true"
sprint false = codes "false"

abbrev pub known_hosts_key : Text
known_hosts_key = codes "CI_SSH_KNOWN_HOSTS_FILE"

abbrev pub git_ssh_key : Text
git_ssh_key = codes "GIT_SSH_COMMAND"

abbrev set_all : List (Text × Text) → Vars → Vars
set_all [] vars = vars
set_all ((key, value) ∷ rest) vars = set_all rest (insert key value vars)

-- The first six bytes of a hash, if it is longer.
abbrev short : Text → Text → List (Text × Text)
short key commit = if ltb 6 (length commit) then (key, take 6 commit) ∷ [] else []

abbrev of_ref : Pipeline → List (Text × Text)
of_ref p =
    if text_beq p.ref_type (codes "BRANCH")
    then (codes "CI_BRANCH", p.ref_display_id) ∷ []
    else if text_beq p.ref_type (codes "TAG")
    then (codes "CI_TAG", p.ref_display_id) ∷ []
    else []

abbrev of_pull_request_id : ℤ → List (Text × Text)
of_pull_request_id (pos (suc n)) = (codes "CI_PULL_REQUEST_ID", itoa (pos (suc n))) ∷ []
of_pull_request_id _ = []

abbrev of_pull_request : Option PullRequest → List (Text × Text)
of_pull_request none = []
of_pull_request (some pr) =
    (codes "CI_PULL_REQUEST_ID", itoa pr.id)
    ∷ (codes "CI_PULL_REQUEST_TITLE", pr.title)
    ∷ (codes "CI_PULL_REQUEST_STATE", pr.state)
    ∷ (codes "CI_PULL_REQUEST_CROSS_REPO", sprint pr.is_cross_repo)
    ∷ (codes "CI_PULL_REQUEST_FROM_HASH", pr.from_ref.hash)
    ∷ (codes "CI_PULL_REQUEST_FROM_REF", pr.from_ref.ref)
    ∷ (codes "CI_PULL_REQUEST_FROM_FORK", sprint pr.from_ref.is_fork)
    ∷ (codes "CI_PULL_REQUEST_TO_HASH", pr.to_ref.hash)
    ∷ (codes "CI_PULL_REQUEST_TO_REF", pr.to_ref.ref)
    ∷ (codes "CI_PULL_REQUEST_TO_FORK", sprint pr.to_ref.is_fork)
    ∷ []

-- What is set in front of the variables of the user, in the order of the assignments.
unfoldable pub built_in : Builder → List (Text × Text)
built_in b =
    ((codes "CI", codes "true")
      ∷ (codes "CI_PIPELINE_ID", itoa b.pipeline.id)
      ∷ (codes "CI_PIPELINE_DIR", b.git_dir)
      ∷ (codes "CI_JOB_ID", itoa b.job.id)
      ∷ (codes "CI_JOB_STAGE", b.job.stage)
      ∷ (codes "CI_JOB_NAME", b.job.name)
      ∷ [])
    ++ of_ref b.pipeline
    ++ ((codes "CI_REF", b.pipeline.ref_display_id)
        ∷ (codes "CI_REF_TYPE", b.pipeline.ref_type)
        ∷ (codes "CI_COMMIT_HASH", b.pipeline.commit)
        ∷ [])
    ++ short (codes "CI_COMMIT_SHORT_HASH") b.pipeline.commit
    ++ (codes "CI_FROM_COMMIT_HASH", b.pipeline.from_commit)
      ∷ short (codes "CI_FROM_COMMIT_SHORT_HASH") b.pipeline.from_commit
    ++ of_pull_request_id b.pipeline.pull_request_id
    ++ of_pull_request b.pull_request
    ++ ((codes "CI_PROJECT_KEY", b.project_key)
        ∷ (codes "CI_PROJECT_NAME", b.project_name)
        ∷ (codes "CI_PROJECT_ID", itoa b.project_id)
        ∷ (codes "CI_REPO_SLUG", b.repository_slug)
        ∷ (codes "CI_REPO_NAME", b.repository_name)
        ∷ (codes "CI_REPO_ID", itoa b.repository_id)
        ∷ (codes "CI_REPO_CLONE_URL_SSH", b.clone_url_ssh)
        ∷ (codes "CI_RUNNER_ID", itoa b.pipeline.runner_id)
        ∷ (codes "CI_RUNNER_NAME", b.runner_name)
        ∷ (codes "CI_RUNNER_VERSION", b.version)
        ∷ (codes "SSH_AUTH_SOCK", b.ssh_socket_path)
        ∷ [])

abbrev pub pair_list : Option (List Pair) → List (Text × Text)
pair_list none = []
pair_list (some []) = []
pair_list (some (pair ∷ pairs)) = (pair.key, pair.value) ∷ pair_list (some pairs)

module _ (getenv : Text → Text) (quote : List Text → Text) where
  -- The closure `expand`
  abbrev pub expander : Vars → Text → Text
  expander vars key = elim (lookup key vars) [ none ↦ getenv key | some result ↦ result ]

  -- A loop over variables of the user: each value sees those that are set before it.
  unfoldable pub set_expanded : List (Text × Text) → Vars → Vars
  set_expanded [] vars = vars
  set_expanded ((key, value) ∷ rest) vars =
      set_expanded rest (insert key (expand (expander vars) value) vars)

  -- The variables of the task and of the pipeline's configuration.
  unfoldable pub before_job : Builder → Vars
  unfolding built_in set_expanded
  before_job b =
      set_expanded (pair_list b.config_variables) (set_expanded b.env (set_all (built_in b) []))

  -- `build`
  unfoldable pub build : Builder → Vars
  unfolding before_job set_expanded
  build b = insert known_hosts_key b.ssh_known_hosts_path (
      insert git_ssh_key
        (quote (codes "ssh" ∷ (codes "-oGlobalKnownHostsFile=" ++ b.ssh_known_hosts_path) ∷ []))
        (set_expanded (pair_list b.job_variables) (before_job b)))
