-- ===== src/Pipeline/Split/Groups.antt =====
-- The groups of `splitJobs` and the jobs that they hold.
use mathlib.Core.List.{Perm, perm_middle}
use mathlib.Core.List.Perm
use snake_runner.Base.{
  Text, List, [], ◌∷◌, ◌++◌, map, concat, true, false, Bool-cases, ◌==◌, text_eq, text_beq,
  text_beq_iff, All, Any, ◌≡◌, ◌⊎◌, refl, sym, subst, inl, inr, arith, if◌then◌else◌,
}
use snake_runner.Snake.{PipelineJob}
use snake_runner.Pipeline.Split.{has_stage, add_stage, collect_stages, stage_jobs, split_jobs}

-- No stage twice.
abbrev pub Distinct : List Text → Type 0
Distinct [] = Unit
Distinct (s ∷ stages) = (has_stage s stages ≡ false) × Distinct stages

abbrev groups : List PipelineJob → List Text → List PipelineJob
groups jobs stages = concat (map (stage_jobs jobs) stages)

groups-nil : (stages : List Text) → groups [] stages ≡ []
unfolding stage_jobs
groups-nil [] = refl
groups-nil (s ∷ stages) = groups-nil stages

-- A job of another stage than these joins no group.
groups_absent :
    (job : PipelineJob) (jobs : List PipelineJob) (stages : List Text)
    → has_stage job.stage stages ≡ false
    → groups (job ∷ jobs) stages ≡ groups jobs stages
unfolding stage_jobs has_stage
groups_absent job jobs [] h = refl
groups_absent job jobs (s ∷ stages) h =
    ground
      (arith, text_beq_iff s job.stage, text_beq_iff job.stage s, groups_absent job jobs stages)

stage_jobs_hit :
    (job : PipelineJob) (jobs : List PipelineJob) (s : Text)
    → text_beq job.stage s ≡ true
    → stage_jobs (job ∷ jobs) s ≡ job ∷ stage_jobs jobs s
unfolding stage_jobs
stage_jobs_hit job jobs s h = rw h

stage_jobs_miss :
    (job : PipelineJob) (jobs : List PipelineJob) (s : Text)
    → text_beq job.stage s ≡ false
    → stage_jobs (job ∷ jobs) s ≡ stage_jobs jobs s
unfolding stage_jobs
stage_jobs_miss job jobs s h = rw h

-- A job joins the one group of its stage.
groups_present :
    (job : PipelineJob) (jobs : List PipelineJob) (stages : List Text)
    → Distinct stages
    → has_stage job.stage stages ≡ true
    → Perm (groups (job ∷ jobs) stages) (job ∷ groups jobs stages)
unfolding has_stage
groups_present job jobs [] d h = absurd (cc)
groups_present job jobs (s ∷ stages) d h = elim (Bool-cases (text_beq job.stage s)) [
  | inl hit ↦
      let same : has_stage job.stage stages ≡ false =
        subst (λ t. has_stage t stages ≡ false) (sym ((text_beq_iff job.stage s).0 hit)) d.0 in
      rw (groups_absent job jobs stages same, stage_jobs_hit job jobs s hit) Perm.rfl
  | inr miss ↦
      let later : has_stage job.stage stages ≡ true =
        ground (arith, text_beq_iff s job.stage, text_beq_iff job.stage s) in
      rw (stage_jobs_miss job jobs s miss) (
        Perm.trans (Perm.append Perm.rfl (groups_present job jobs stages d.1 later))
          (perm_middle (stage_jobs jobs s) (groups jobs stages)))
]

groups-perm :
    (jobs : List PipelineJob) (stages : List Text)
    → Distinct stages
    → All (λ job. has_stage job.stage stages ≡ true) jobs
    → Perm (groups jobs stages) jobs
groups-perm [] stages d h = rw (groups-nil stages) Perm.rfl
groups-perm (job ∷ jobs) stages d h =
    Perm.trans (groups_present job jobs stages d h.0)
      (Perm.cons job (groups-perm jobs stages d h.1))

has_stage-append :
    (t s : Text) (stages : List Text)
    → has_stage t (stages ++ s ∷ []) ≡ (if has_stage t stages then true else s == t)
unfolding has_stage
has_stage-append t s [] = ground arith
has_stage-append t s (u ∷ stages) = ground (arith, has_stage-append t s stages)

Distinct-append :
    (s : Text) (stages : List Text)
    → Distinct stages
    → has_stage s stages ≡ false
    → Distinct (stages ++ s ∷ [])
unfolding has_stage
Distinct-append s [] d h = (refl, tt)
Distinct-append s (t ∷ stages) d h = (
  ground (arith, has_stage-append t s stages, text_beq_iff s t, text_beq_iff t s),
  Distinct-append s stages d.1 (ground arith),
)

pub collect_stages-Distinct :
    (stages : List Text) (jobs : List PipelineJob)
    → Distinct stages
    → Distinct (collect_stages stages jobs)
unfolding collect_stages
collect_stages-Distinct stages [] d = d
collect_stages-Distinct stages (job ∷ jobs) d = elim (Bool-cases (has_stage job.stage stages)) [
  | inl old ↦ rw old (collect_stages-Distinct stages jobs d)
  | inr new ↦ rw new (
      collect_stages-Distinct (stages ++ job.stage ∷ []) jobs
        (Distinct-append job.stage stages d new))
]

-- A stage that is there stays, and every job's stage gets in.
collect_stages_keeps :
    (t : Text) (stages : List Text) (jobs : List PipelineJob)
    → has_stage t stages ≡ true
    → has_stage t (collect_stages stages jobs) ≡ true
unfolding collect_stages
collect_stages_keeps t stages [] h = h
collect_stages_keeps t stages (job ∷ jobs) h =
    collect_stages_keeps t (add_stage stages job) jobs
      (unfold add_stage in ground (arith, has_stage-append t job.stage stages))

collect_stages_covers :
    (stages : List Text) (jobs : List PipelineJob)
    → All (λ job. has_stage job.stage (collect_stages stages jobs) ≡ true) jobs
unfolding collect_stages
collect_stages_covers stages [] = tt
collect_stages_covers stages (job ∷ jobs) = (
  collect_stages_keeps job.stage (add_stage stages job) jobs (
      unfold add_stage in
      ground
        (arith, has_stage-append job.stage job.stage stages, text_beq_iff job.stage job.stage)),
  collect_stages_covers (add_stage stages job) jobs,
)

-- The groups together are the pipeline's jobs, each as often as the pipeline lists it.
pub split_jobs-perm : (jobs : List PipelineJob) → Perm (concat (split_jobs jobs)) jobs
unfolding split_jobs
split_jobs-perm jobs =
    groups-perm jobs (collect_stages [] jobs) (collect_stages-Distinct [] jobs tt)
      (collect_stages_covers [] jobs)

-- A stage that is collected is that of a job, or was there before.
collect_stages_from :
    (stages : List Text) (jobs : List PipelineJob) (t : Text)
    → has_stage t (collect_stages stages jobs) ≡ true
    → (has_stage t stages ≡ true) ⊎ Any (λ job. job.stage ≡ t) jobs
unfolding collect_stages
collect_stages_from stages [] t h = inl h
collect_stages_from stages (job ∷ jobs) t h =
    elim (collect_stages_from (add_stage stages job) jobs t h) [
      | inl old ↦
          (unfold add_stage in
            ground (arith, has_stage-append t job.stage stages, text_beq_iff job.stage t))
      | inr later ↦ inr (inr later)
    ]

-- A group has a job, and all its jobs are of the stage.
abbrev pub IsGroup : Text → List PipelineJob → Type 0
IsGroup stage group = Any (λ job. job.stage ≡ stage) group × All (λ job. job.stage ≡ stage) group

abbrev pub AreGroups : List Text → List (List PipelineJob) → Type 0
AreGroups [] [] = Unit
AreGroups [] (g ∷ gs) = ⊥
AreGroups (s ∷ stages) [] = ⊥
AreGroups (s ∷ stages) (g ∷ gs) = IsGroup s g × AreGroups stages gs

stage_jobs_of :
    (jobs : List PipelineJob) (stage : Text)
    → All (λ job. job.stage ≡ stage) (stage_jobs jobs stage)
unfolding stage_jobs
stage_jobs_of [] stage = tt
stage_jobs_of (job ∷ jobs) stage = elim (Bool-cases (text_beq job.stage stage)) [
  | inl hit ↦ rw hit ((text_beq_iff job.stage stage).0 hit, stage_jobs_of jobs stage)
  | inr miss ↦ rw miss (stage_jobs_of jobs stage)
]

stage_jobs_some :
    (jobs : List PipelineJob) (stage : Text)
    → Any (λ job. job.stage ≡ stage) jobs
    → Any (λ job. job.stage ≡ stage) (stage_jobs jobs stage)
unfolding stage_jobs
stage_jobs_some [] stage h = h
stage_jobs_some (job ∷ jobs) stage (inl e) = rw ((text_beq_iff job.stage stage).1 e) (inl e)
stage_jobs_some (job ∷ jobs) stage (inr h) = elim (Bool-cases (text_beq job.stage stage)) [
  | inl hit ↦ rw hit (inr (stage_jobs_some jobs stage h))
  | inr miss ↦ rw miss (stage_jobs_some jobs stage h)
]

stages-AreGroups :
    (jobs : List PipelineJob) (stages : List Text)
    → All (λ s. Any (λ job. job.stage ≡ s) jobs) stages
    → AreGroups stages (map (stage_jobs jobs) stages)
stages-AreGroups jobs [] h = tt
stages-AreGroups jobs (s ∷ stages) h =
    ((stage_jobs_some jobs s h.0, stage_jobs_of jobs s), stages-AreGroups jobs stages h.1)

All_of_has_stage :
    (P : Text → Type 0) (stages : List Text)
    → ((s : Text) → has_stage s stages ≡ true → P s)
    → All P stages
unfolding has_stage
All_of_has_stage P [] h = tt
All_of_has_stage P (s ∷ stages) h =
    (h s (ground (arith, text_beq_iff s s)), All_of_has_stage P stages (λ t e. h t (ground arith)))

from_jobs :
    (jobs : List PipelineJob) (s : Text)
    → has_stage s (collect_stages [] jobs) ≡ true
    → Any (λ job. job.stage ≡ s) jobs
from_jobs jobs s h = elim (collect_stages_from [] jobs s h) [
  | inl old ↦ absurd (unfold has_stage in cc)
  | inr here ↦ here
]

-- The groups stand under distinct stages; each has a job, and only jobs of its stage.
pub split_jobs-AreGroups :
    (jobs : List PipelineJob)
    → (stages : List Text) × Distinct stages × AreGroups stages (split_jobs jobs)
unfolding split_jobs
split_jobs-AreGroups jobs = (
  collect_stages [] jobs,
  collect_stages-Distinct [] jobs tt,
  stages-AreGroups jobs (collect_stages [] jobs)
      (All_of_has_stage _ (collect_stages [] jobs) (from_jobs jobs)),
)
