-- ===== src/Scheduler/Cancels/Entries.antt =====
-- What the scheduler keeps of the pipelines that run, so that they can be canceled.
use snake_runner.Base.{
  ℕ, ℤ, int_eq, int_beq, List, [], ◌∷◌, ◌++◌, Option, none, some, true, All, All-append, All-split,
  Any, ◌≡◌, ◌≢◌, sym, ◌⊎◌,
}
use snake_runner.SafeMap.{IntToAny, IntToContextCancelFunc, load}
use snake_runner.Scheduler.{running, Run, ended, Scheduler}

-- The context of a run is canceled.
abbrev pub IsCanceled : Scheduler → Run → Type 0
IsCanceled s r = Any (λ ctx. ctx ≡ r.ctx) s.canceled

abbrev pub Queued : Option (List ℤ) → ℤ → Type 0
Queued none id = Unit
Queued (some ids) id = Any (λ k. int_beq k id ≡ true) ids

-- The run can be found by its identifier, and the shutdown still has it to cancel.
pub record Entry (cancels : IntToContextCancelFunc ℕ) (pipelines_map : IntToAny (Unit {0}))
    (shutdown_ids : Option (List ℤ)) (r : Run) : Type 0 where
  pub cancelable : load cancels r.id ≡ some r.ctx
  pub known : load pipelines_map r.id ≡ some tt
  pub queued : Queued shutdown_ids r.id

abbrev pub Listed : Scheduler → Run → Type 0
Listed s r = Entry s.cancels s.pipelines_map s.shutdown_ids r

abbrev pub Registered : Scheduler → Run → Type 0
Registered s r = r.phase ≡ running → IsCanceled s r ⊎ Listed s r

abbrev pub Other : ℤ → Run → Type 0
Other id r = r.id ≢ id

abbrev pub DistinctIds : List Run → Type 0
DistinctIds [] = Unit
DistinctIds (r ∷ runs) = All (Other r.id) runs × DistinctIds runs

pub distinct_around :
    (before : List Run) (r : Run) (after : List Run)
    → DistinctIds (before ++ r ∷ after)
    → All (Other r.id) before × All (Other r.id) after
distinct_around [] r after d = (tt, d.0)
distinct_around (q ∷ before) r after d =
    let rest = distinct_around before r after d.1 in
    let others = All-split (Other q.id) before (r ∷ after) d.0 in
    (((λ e. others.1.0 (sym e)), rest.0), rest.1)

pub distinct_change :
    (before : List Run) (r r' : Run) (after : List Run)
    → r'.id ≡ r.id
    → DistinctIds (before ++ r ∷ after)
    → DistinctIds (before ++ r' ∷ after)
distinct_change [] r r' after e d = (rw e d.0, d.1)
distinct_change (q ∷ before) r r' after e d =
    let others = All-split (Other q.id) before (r ∷ after) d.0 in
    (
      All-append (Other q.id) before (r' ∷ after) others.0 (rw e others.1.0, others.1.1),
      distinct_change before r r' after e d.1,
    )

pub distinct_drop :
    (before : List Run) (r : Run) (after : List Run)
    → DistinctIds (before ++ r ∷ after)
    → DistinctIds (before ++ after)
distinct_drop [] r after d = d.1
distinct_drop (q ∷ before) r after d =
    let others = All-split (Other q.id) before (r ∷ after) d.0 in
    (All-append (Other q.id) before after others.0 others.1.1, distinct_drop before r after d.1)

pub All-map2 :
    {P Q R : Run → Type 0} (runs : List Run)
    → ((r : Run) → P r → Q r → R r)
    → All P runs
    → All Q runs
    → All R runs
All-map2 [] f p q = tt
All-map2 (r ∷ runs) f p q = (f r p.0 q.0, All-map2 runs f p.1 q.1)

pub All-map1 :
    {P R : Run → Type 0} (runs : List Run) → ((r : Run) → P r → R r) → All P runs → All R runs
All-map1 [] f p = tt
All-map1 (r ∷ runs) f p = (f r p.0, All-map1 runs f p.1)

pub record Inv (s : Scheduler) : Type 0 where
  pub distinct : DistinctIds s.runs
  pub registered : All (Registered s) s.runs
  -- the shutdown collects when the loop is over
  pub closed : (ids : List ℤ) → s.shutdown_ids ≡ some ids → s.loop ≡ ended
