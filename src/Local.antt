-- ===== src/Local.antt =====
-- internal/executor/shell/shell.go: the executor that runs commands on the local host. A box keeps
-- the commands that run in it, so that `Destroy` can kill them; the calls of `Exec` and `Destroy`
-- may come in any order, but one call of `Destroy` at a time. A command is known by a number.
pub mod Kills
use snake_runner.Base.{
  ℕ, nat_eq, nat_beq, Text, codes, List, [], ◌∷◌, length, Option, none, some, Bool, true, false,
  if◌then◌else◌, ◌≡◌,
}
use snake_runner.Errors.{Error, message}
use snake_runner.Set.{TypeSet, put, discard, list}

-- Where a call of `Exec` is: before `cmd.Start()`, behind it, behind `processes.Put`, behind
-- `cmd.Wait()`, and behind the deferred `processes.Delete`.
pub data Phase : Type 0 where
  absent started waiting ended gone : Phase

pub record Box : Type 0 where
  pub processes : TypeSet ℕ
  pub phase : ℕ → Phase
  -- a call of `Destroy` has read this length, and has not yet listed the commands
  pub destroying : Option ℕ
  -- the commands that `Destroy` has killed
  pub killed : List ℕ
  -- `Destroy` has used an index out of range, or a command that is nil
  pub panicked : Bool

abbrev pub new_box : Box
new_box = record {
  processes = [];
  phase = λ n. absent;
  destroying = none;
  killed = [];
  panicked = false;
}

abbrev pub set_phase : (ℕ → Phase) → ℕ → Phase → ℕ → Phase
set_phase phase n p m = if nat_beq n m then p else phase m

unfoldable pub start : Box → ℕ → Box
start box n = record box { phase = set_phase box.phase n started }

unfoldable pub register : Box → ℕ → Box
register box n = record box {
  processes = put box.processes n;
  phase = set_phase box.phase n waiting;
}

unfoldable pub end_wait : Box → ℕ → Box
end_wait box n = record box { phase = set_phase box.phase n ended }

unfoldable pub unregister : Box → ℕ → Box
unregister box n = record box {
  processes = discard box.processes n;
  phase = set_phase box.phase n gone;
}

-- `Destroy` up to the lock in `List`.
unfoldable pub begin_destroy : Box → Box
begin_destroy box = record box { destroying = some (length box.processes) }

-- The loop of `Destroy`: the use of a nil command panics.
unfoldable pub kill_all : Box → List (Option ℕ) → Box
kill_all box [] = box
kill_all box (none ∷ commands) = record box { panicked = true }
kill_all box (some n ∷ commands) = kill_all (record box { killed = n ∷ box.killed }) commands

-- `Destroy` from the lock on, with the length that it has read.
unfoldable pub end_destroy : Box → ℕ → Box
unfolding list kill_all
end_destroy box size = elim (list size box.processes) [
  | none ↦ record box { destroying = none; panicked = true }
  | some commands ↦ kill_all (record box { destroying = none }) commands
]

pub data Step (b c : Box) : Type 0 where
  starts : (n : ℕ) → b.phase n ≡ absent → c ≡ start b n → Step b c
  registers : (n : ℕ) → b.phase n ≡ started → c ≡ register b n → Step b c
  waits : (n : ℕ) → b.phase n ≡ waiting → c ≡ end_wait b n → Step b c
  unregisters : (n : ℕ) → b.phase n ≡ ended → c ≡ unregister b n → Step b c
  begins_destroy : b.destroying ≡ none → c ≡ begin_destroy b → Step b c
  ends_destroy : (size : ℕ) → b.destroying ≡ some size → c ≡ end_destroy b size → Step b c

pub data Reach (b : Box) : Box → Type 0 where
  here : Reach b b
  next : {c d : Box} → Reach b c → Step c d → Reach b d

-- `DetectShell`; `look_path` is the error of `exec.LookPath`.
unfoldable pub detect_shell : (Text → Option Error) → Text
detect_shell look_path = elim (look_path (codes "bash")) [
  | none ↦ codes "bash"
  | some error ↦ codes "sh"
]
