-- ===== src/Bufferer.antt =====
-- internal/bufferer/bufferer.go: writers put data into a channel, a goroutine flushes what comes
-- out of it, and `Close` shuts both down. The ticker may fire at any time.
pub mod Balance
pub mod Order
use snake_runner.Base.{
  ℕ, Text, List, [], ◌∷◌, ◌++◌, length, Bool, true, false, is_empty, leb, if◌then◌else◌, ◌≡◌, ◌⊎◌,
  ◌<◌,
}

-- A call of `Write`: it has added itself to the writers, and, when `sending`, has seen that the
-- channel `done` is open.
pub record Writing : Type 0 where
  pub payload : Text
  pub sending : Bool

pub record Bufferer : Type 0 where
  pub chan_size : ℕ
  pub flush_size : ℕ
  -- the channel, the oldest first; `accepted` is all that was ever sent into it
  pub pipe : List Text
  pub accepted : List Text
  pub pipe_closed : Bool
  -- the channel `done` is closed
  pub done : Bool
  pub closed : Bool
  -- the calls of `Write` under way
  pub writers : List Writing
  -- `Close` holds `writersMutex` and waits for the writers
  pub waiting : Bool
  -- the variable of `Run`, and what was given to `flush`, the oldest first
  pub buffer : Text
  pub flushed : List Text
  pub run_ended : Bool
  -- a send on a closed channel
  pub panicked : Bool

unfoldable pub new_bufferer : ℕ → ℕ → Bufferer
new_bufferer chan_size flush_size = record {
  chan_size = chan_size;
  flush_size = flush_size;
  pipe = [];
  accepted = [];
  pipe_closed = false;
  done = false;
  closed = false;
  writers = [];
  waiting = false;
  buffer = [];
  flushed = [];
  run_ended = false;
  panicked = false;
}

unfoldable pub flush : Bufferer → Bufferer
flush b = record b { flushed = b.flushed ++ b.buffer ∷ []; buffer = [] }

-- `Run` receives from the channel.
unfoldable pub receive : Bufferer → Text → List Text → Bufferer
unfolding flush
receive b text rest =
    let b' = record b { pipe = rest; buffer = b.buffer ++ text } in
    if leb b.flush_size (length b'.buffer) then flush b' else b'

-- `Run` sees the ticker.
unfoldable pub tick : Bufferer → Bufferer
unfolding flush
tick b = if is_empty b.buffer then b else flush b

-- `Run` sees that the channel is closed and empty.
unfoldable pub end_run : Bufferer → Bufferer
unfolding flush
end_run b = record (if is_empty b.buffer then b else flush b) { run_ended = true }

-- `Write` up to `writersMutex.Unlock()`.
unfoldable pub enter : Bufferer → Text → Bufferer
enter b payload = record b { writers = record { payload = payload; sending = false } ∷ b.writers }

-- The first `select`: the data is dropped if `done` is closed.
unfoldable pub check : Bufferer → List Writing → Writing → List Writing → Bufferer
check b before w after =
    if b.done
    then record b { writers = before ++ after }
    else record b { writers = before ++ record w { sending = true } ∷ after }

-- The second `select`, where it sends, and where it sees that `done` is closed.
unfoldable pub push : Bufferer → List Writing → Writing → List Writing → Bufferer
push b before w after = if b.pipe_closed then record b { panicked = true } else record b {
  pipe = b.pipe ++ w.payload ∷ [];
  accepted = b.accepted ++ w.payload ∷ [];
  writers = before ++ after;
}

unfoldable pub give_up : Bufferer → List Writing → List Writing → Bufferer
give_up b before after = record b { writers = before ++ after }

-- `Close` up to `close(writer.done)`, `writersMutex.Lock()`, and from the end of `writers.Wait()` on.
unfoldable pub begin_close : Bufferer → Bufferer
begin_close b = if b.closed then b else record b { closed = true; done = true }

unfoldable pub lock_writers : Bufferer → Bufferer
lock_writers b = record b { waiting = true }

unfoldable pub close_pipe : Bufferer → Bufferer
close_pipe b = record b { pipe_closed = true; waiting = false }

pub data Step (b c : Bufferer) : Type 0 where
  receives :
      (text : Text) (rest : List Text)
      → b.run_ended ≡ false
      → b.pipe ≡ text ∷ rest
      → c ≡ receive b text rest
      → Step b c
  ticks : b.run_ended ≡ false → c ≡ tick b → Step b c
  ends : b.run_ended ≡ false → b.pipe ≡ [] → b.pipe_closed ≡ true → c ≡ end_run b → Step b c
  enters : (payload : Text) → b.waiting ≡ false → c ≡ enter b payload → Step b c
  checks :
      (before : List Writing) (w : Writing) (after : List Writing)
      → b.writers ≡ before ++ w ∷ after
      → w.sending ≡ false
      → c ≡ check b before w after
      → Step b c
  -- a closed channel takes a send at once, which panics
  pushes :
      (before : List Writing) (w : Writing) (after : List Writing)
      → b.writers ≡ before ++ w ∷ after
      → w.sending ≡ true
      → (b.pipe_closed ≡ true) ⊎ (length b.pipe < b.chan_size)
      → c ≡ push b before w after
      → Step b c
  gives_up :
      (before : List Writing) (w : Writing) (after : List Writing)
      → b.writers ≡ before ++ w ∷ after
      → w.sending ≡ true
      → b.done ≡ true
      → c ≡ give_up b before after
      → Step b c
  closes : c ≡ begin_close b → Step b c
  locks : b.done ≡ true → b.pipe_closed ≡ false → c ≡ lock_writers b → Step b c
  closes_pipe : b.waiting ≡ true → b.writers ≡ [] → c ≡ close_pipe b → Step b c

pub data Reach (b : Bufferer) : Bufferer → Type 0 where
  here : Reach b b
  next : {c d : Bufferer} → Reach b c → Step c d → Reach b d
