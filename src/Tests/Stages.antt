-- ===== src/Tests/Stages.antt =====
-- Stages, failures, maps and variables at concrete inputs.
use mathlib.Core.List.{Perm}
use snake_runner.Base.{
  ℕ, pos, int_eq, text_eq, Text, codes, List, [], ◌∷◌, concat, none, some, true, false, ◌≡◌, refl,
  ◌↔◌,
}
use snake_runner.Status.{Status}
use snake_runner.Snake.{PipelineJob}
use snake_runner.Client.{update_pipeline, update_job}
use snake_runner.Pipeline.Fail.{fail}
use snake_runner.Pipeline.Fail.Marks.{fail_marks}
use snake_runner.Pipeline.Split.{split_jobs}
use snake_runner.Pipeline.Split.Groups.{Distinct, AreGroups, split_jobs-perm, split_jobs-AreGroups}
use snake_runner.MapSlice.{Pair, find}
use snake_runner.MapSlice.Find.{last_match, find-last_match}
use snake_runner.MapSlice.Nodes.{
  Nodes, node, nil, cons, mapping, scalar, parsed, new, Outer, in_documents, HasPairs, new-HasPairs,
}
use snake_runner.Tests.Jobs.{job_of, quiet}

abbrev staged : ℕ → Text → PipelineJob
staged n stage = record (job_of n) { stage = stage }

abbrev build : Text
build = codes "build"

abbrev deploy : Text
deploy = codes "deploy"

abbrev mixed : List PipelineJob
mixed = staged 1 build ∷ staged 2 deploy ∷ staged 3 build ∷ []

mixed_groups :
    split_jobs mixed ≡ (staged 1 build ∷ staged 3 build ∷ []) ∷ (staged 2 deploy ∷ []) ∷ []
unfolding split_jobs
mixed_groups = refl

split_jobs-perm_example : Perm (concat (split_jobs mixed)) mixed
split_jobs-perm_example = split_jobs-perm mixed

split_jobs-AreGroups_example :
    (stages : List Text) × Distinct stages × AreGroups stages (split_jobs mixed)
split_jobs-AreGroups_example = split_jobs-AreGroups mixed

-- Job 2 stands in front of job 3, in a later stage: it never runs, and gets no SKIPPED.
fail_marks_example :
    fail quiet (pos 7) mixed (pos 3) false []
    ≡ (true, update_pipeline (pos 7) Status.failed none (some 5) ∷ [])
fail_marks_example =
    fail_marks quiet (pos 7) (staged 1 build ∷ staged 2 deploy ∷ []) (staged 3 build) [] []
      (λ e. cc) ((λ e. cc), ((λ e. cc), tt)) tt

skips_deploy : fail quiet (pos 7) mixed (pos 1) false [] ≡ (
  true,
  update_job (pos 7) (pos 2) Status.skipped none none
      ∷ update_pipeline (pos 7) Status.failed none (some 5)
      ∷ [],
)
unfolding fail
skips_deploy = refl

abbrev pair_of : Text → Text → Pair
pair_of key value = record { key = key; value = value }

abbrev auth : Pair
auth = pair_of (codes "DOCKER_AUTH_CONFIG") (codes "{}")

find-last_match_example :
    find (auth ∷ pair_of (codes "A") (codes "1") ∷ []) (codes "A")
    ≡ last_match (codes "A") (pair_of (codes "A") (codes "1") ∷ [])
find-last_match_example = find-last_match auth (pair_of (codes "A") (codes "1") ∷ []) (codes "A")

-- The file `DOCKER_AUTH_CONFIG: {}` from its second line on.
abbrev auth_content : Nodes
auth_content =
    cons (node scalar (codes "DOCKER_AUTH_CONFIG") 2 1 nil)
      (cons (node scalar (codes "{}") 2 21 nil) nil)

abbrev file : Outer
file = record { text = []; line = 1; column = 1; behind = nil }

new-HasPairs_example :
    new (in_documents (file ∷ []) (node mapping [] 2 1 auth_content)) ≡ parsed (auth ∷ [])
    ↔ HasPairs auth_content (auth ∷ [])
new-HasPairs_example = new-HasPairs (file ∷ []) [] 2 1 auth_content (auth ∷ [])
