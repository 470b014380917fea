-- ===== src/Scheduler/KeySets.antt =====
-- Keys that differ: those that are held, those in the queue, and those of the pipelines.
use snake_runner.Base.{
  List, [], ◌∷◌, ◌++◌, Option, none, some, All, All-append, All-split, ◌≡◌, ◌≢◌, sym, ◌∙◌,
}
use snake_runner.Scheduler.{Key, Run}
use snake_runner.Scheduler.Steps.{rest_of}

abbrev Unlike : Key → Run → Type 0
Unlike key r = r.key ≢ key

-- No goroutine has the key of another one.
abbrev pub DistinctKeys : List Run → Type 0
DistinctKeys [] = Unit
DistinctKeys (r ∷ runs) = All (Unlike r.key) runs × DistinctKeys runs

abbrev Absent : Key → List Key → Type 0
Absent key = All (λ k. k ≢ key)

abbrev Distinct : List Key → Type 0
Distinct [] = Unit
Distinct (k ∷ keys) = Absent k keys × Distinct keys

-- No goroutine has a key of the queue.
abbrev Apart : List Key → List Run → Type 0
Apart keys runs = All (λ k. All (Unlike k) runs) keys

abbrev HeldApart : Option Key → List Key → List Run → Type 0
HeldApart none queue runs = Unit
HeldApart (some key) queue runs = Absent key queue × All (Unlike key) runs

-- The keys that are held, queued and used all differ.
pub record Inv (held : Option Key) (queue : List Key) (runs : List Run) : Type 0 where
  pub used : DistinctKeys runs
  pub queued : Distinct queue
  pub apart : Apart queue runs
  pub held_apart : HeldApart held queue runs

Distinct-append :
    (keys : List Key) (key : Key) → Distinct keys → Absent key keys → Distinct (keys ++ key ∷ [])
Distinct-append [] key d a = (tt, tt)
Distinct-append (k ∷ keys) key d a = (
  All-append (λ j. j ≢ k) keys (key ∷ []) d.0 ((λ e. a.0 (sym e)), tt),
  Distinct-append keys key d.1 a.1,
)

pub generate-Inv :
    (held : Option Key) (queue : List Key) (runs : List Run) (key : Key)
    → held ≢ some key
    → Absent key queue
    → All (Unlike key) runs
    → Inv held queue runs
    → Inv held (queue ++ key ∷ []) runs
generate-Inv held queue runs key h q r v = record {
  used = v.used;
  queued = Distinct-append queue key v.queued q;
  apart = All-append (λ k. All (Unlike k) runs) queue (key ∷ []) v.apart (r, tt);
  held_apart = still held h v.held_apart;
}
  where
    still :
        (held : Option Key)
        → held ≢ some key
        → HeldApart held queue runs
        → HeldApart held (queue ++ key ∷ []) runs
    still none h a = tt
    still (some k) h a = (All-append (λ j. j ≢ k) queue (key ∷ []) a.0 ((λ e. h (cc)), tt), a.1)

-- The loop takes the first key of the queue.
pub take-Inv :
    (key : Key) (queue : List Key) (runs : List Run)
    → Inv none (key ∷ queue) runs
    → Inv (some key) queue runs
take-Inv key queue runs v = record {
  used = v.used;
  queued = v.queued.1;
  apart = v.apart.1;
  held_apart = (v.queued.0, v.apart.0);
}

pub drop-Inv :
    (held : Option Key) (queue : List Key) (runs : List Run)
    → Inv held queue runs
    → Inv none queue runs
drop-Inv held queue runs v = record {
  used = v.used;
  queued = v.queued;
  apart = v.apart;
  held_apart = tt;
}

All-Apart :
    (key : Key) (r : Run) (queue : List Key) (runs : List Run)
    → r.key ≡ key
    → Absent key queue
    → Apart queue runs
    → Apart queue (r ∷ runs)
All-Apart key r [] runs e a p = tt
All-Apart key r (k ∷ queue) runs e a p =
    (((λ q. a.0 (sym q ∙ e)), p.0), All-Apart key r queue runs e a.1 p.1)

pub use-Inv :
    (key : Key) (r : Run) (queue : List Key) (runs : List Run)
    → r.key ≡ key
    → Inv (some key) queue runs
    → Inv none queue (r ∷ runs)
use-Inv key r queue runs e v = record {
  used = (rw e v.held_apart.1, v.used);
  queued = v.queued;
  apart = All-Apart key r queue runs e v.held_apart.0 v.apart;
  held_apart = tt;
}

-- A goroutine goes on under its key, or is gone.
abbrev pub Keeps : Run → Option Run → Type 0
Keeps r none = Unit
Keeps r (some r') = r'.key ≡ r.key

All-rest :
    (key : Key) (before : List Run) (r : Run) (o : Option Run) (after : List Run)
    → Keeps r o
    → All (Unlike key) (before ++ r ∷ after)
    → All (Unlike key) (before ++ rest_of o after)
All-rest key before r o after k h =
    let parts = All-split (Unlike key) before (r ∷ after) h in
    All-append (Unlike key) before (rest_of o after) parts.0 (behind o k parts.1)
  where
    behind :
        (o : Option Run)
        → Keeps r o
        → All (Unlike key) (r ∷ after)
        → All (Unlike key) (rest_of o after)
    behind none k h = h.1
    behind (some r') k h = (rw k h.0, h.1)

leave_used :
    (before : List Run) (r : Run) (o : Option Run) (after : List Run)
    → Keeps r o
    → DistinctKeys (before ++ r ∷ after)
    → DistinctKeys (before ++ rest_of o after)
leave_used [] r none after k d = d.1
leave_used [] r (some r') after k d = (rw k d.0, d.1)
leave_used (q ∷ before) r none after k d =
    (All-rest q.key before r none after k d.0, leave_used before r none after k d.1)
leave_used (q ∷ before) r (some r') after k d =
    (All-rest q.key before r (some r') after k d.0, leave_used before r (some r') after k d.1)

pub leave-Inv :
    (held : Option Key) (queue : List Key) (before : List Run) (r : Run) (o : Option Run)
    (after : List Run)
    → Keeps r o
    → Inv held queue (before ++ r ∷ after)
    → Inv held queue (before ++ rest_of o after)
leave-Inv held queue before r o after k v = record {
  used = leave_used before r o after k v.used;
  queued = v.queued;
  apart = queue_apart queue v.apart;
  held_apart = held_still held v.held_apart;
}
  where
    queue_apart :
        (keys : List Key)
        → Apart keys (before ++ r ∷ after)
        → Apart keys (before ++ rest_of o after)
    queue_apart [] p = tt
    queue_apart (key ∷ keys) p = (All-rest key before r o after k p.0, queue_apart keys p.1)

    held_still :
        (held : Option Key)
        → HeldApart held queue (before ++ r ∷ after)
        → HeldApart held queue (before ++ rest_of o after)
    held_still none a = tt
    held_still (some key) a = (a.0, All-rest key before r o after k a.1)
