-- ===== src/Tests/Logs.antt =====
-- The bufferer: one write of three bytes and a close.
use snake_runner.Base.{Text, codes, [], ◌∷◌, true, false, ◌≡◌, refl, inr, arith, concat}
use snake_runner.Bufferer.{
  Writing, Bufferer, new_bufferer, flush, receive, end_run, enter, check, push, begin_close,
  lock_writers, close_pipe, receives, ends, enters, checks, pushes, closes, locks, closes_pipe,
  Reach, here, next,
}
use snake_runner.Bufferer.Order.{flushed-accepted, push_never_panics}

abbrev written : Text
written = codes "log"

abbrev asking : Writing
asking = record { payload = written; sending = false }

abbrev ready : Writing
ready = record { payload = written; sending = true }

abbrev b0 : Bufferer
b0 = record {
  chan_size = 2;
  flush_size = 64;
  pipe = [];
  accepted = [];
  pipe_closed = false;
  done = false;
  closed = false;
  writers = [];
  waiting = false;
  buffer = [];
  flushed = [];
  run_ended = false;
  panicked = false;
}

abbrev b3 : Bufferer
b3 = record b0 { pipe = written ∷ []; accepted = written ∷ [] }

abbrev b4 : Bufferer
b4 = record b0 { buffer = written; accepted = written ∷ [] }

abbrev b5 : Bufferer
b5 = record b4 { closed = true; done = true }

abbrev b5_locked : Bufferer
b5_locked = record b5 { waiting = true }

abbrev b6 : Bufferer
b6 = record b4 { closed = true; done = true; pipe_closed = true }

abbrev b7 : Bufferer
b7 = record b6 { buffer = []; flushed = written ∷ []; run_ended = true }

history : Reach (new_bufferer 2 64) b7
unfolding new_bufferer enter check push receive flush begin_close lock_writers close_pipe end_run
history =
    let entered = next {d = record b0 { writers = asking ∷ [] }} here (enters written refl refl) in
    let checked =
      next {d = record b0 { writers = ready ∷ [] }} entered (checks [] asking [] refl refl refl) in
    let pushed = next {d = b3} checked (pushes [] ready [] refl refl (inr (omega arith)) refl) in
    let received = next {d = b4} pushed (receives written [] refl refl refl) in
    let closing = next {d = b5} received (closes refl) in
    let locked = next {d = b5_locked} closing (locks refl refl refl) in
    let shut = next {d = b6} locked (closes_pipe refl refl refl) in
    next {d = b7} shut (ends refl refl refl refl)

flushed-accepted_example : concat b7.flushed ≡ concat b7.accepted
flushed-accepted_example = flushed-accepted 2 64 history refl

push_never_panics_example : b7.panicked ≡ false
push_never_panics_example = push_never_panics 2 64 history
