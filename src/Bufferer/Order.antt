-- ===== src/Bufferer/Order.antt =====
-- The order of the data that the bufferer of internal/bufferer flushes, and the use of its channel.
use snake_runner.Base.{
  ℕ, Text, List, [], ◌∷◌, ◌++◌, concat, append-nil, true, false, Bool-cases, is_empty, All,
  All-append, All-split, ◌≡◌, refl, sym, ◌∙◌, subst, inl, inr, arith,
}
use snake_runner.Bufferer.{
  Writing, Bufferer, new_bufferer, receive, tick, end_run, enter, check, push, give_up, begin_close,
  lock_writers, close_pipe, Step, receives, ticks, ends, enters, checks, pushes, gives_up, closes,
  locks, closes_pipe, Reach, here, next,
}
use snake_runner.Bufferer.Balance.{Balanced, receive-Balanced, tick-Balanced, push-Balanced}

-- No writer is to send once the channel is closed, and `done` is closed before it.
record Safe (b : Bufferer) : Type 0 where
  balanced : Balanced b
  quiet : b.pipe_closed ≡ true → All (λ w. w.sending ≡ false) b.writers
  ordered : b.pipe_closed ≡ true → b.done ≡ true
  waits : b.waiting ≡ true → b.done ≡ true
  sound : b.panicked ≡ false
  over : b.run_ended ≡ true → (b.pipe ≡ []) × (b.buffer ≡ []) × (b.pipe_closed ≡ true)

receive_frame :
    (b : Bufferer) (text : Text) (rest : List Text)
    → ((receive b text rest).writers ≡ b.writers)
      × ((receive b text rest).pipe_closed ≡ b.pipe_closed)
      × ((receive b text rest).done ≡ b.done)
      × ((receive b text rest).waiting ≡ b.waiting)
      × ((receive b text rest).panicked ≡ b.panicked)
      × ((receive b text rest).run_ended ≡ b.run_ended)
unfolding receive
receive_frame b text rest = ground arith

tick_frame :
    (b : Bufferer)
    → ((tick b).writers ≡ b.writers)
      × ((tick b).pipe_closed ≡ b.pipe_closed)
      × ((tick b).done ≡ b.done)
      × ((tick b).waiting ≡ b.waiting)
      × ((tick b).panicked ≡ b.panicked)
      × ((tick b).run_ended ≡ b.run_ended)
      × ((tick b).pipe ≡ b.pipe)
      × ((tick b).buffer ≡ [])
unfolding tick
tick_frame b = elim (Bool-cases (is_empty b.buffer)) [
  | inl blank ↦ rw blank (refl, refl, refl, refl, refl, refl, refl, empty_text b.buffer blank)
  | inr text ↦ rw text (refl, refl, refl, refl, refl, refl, refl, refl)
]
  where
    empty_text : (t : Text) → is_empty t ≡ true → t ≡ []
    empty_text [] h = refl
    empty_text (c ∷ t) h = absurd (cc)

end_run-tick : (b : Bufferer) → end_run b ≡ record (tick b) { run_ended = true }
unfolding end_run tick
end_run-tick b = refl

drop_quiet :
    (before : List Writing) (w : Writing) (after : List Writing)
    → All (λ w. w.sending ≡ false) (before ++ w ∷ after)
    → All (λ w. w.sending ≡ false) (before ++ after)
drop_quiet before w after h =
    let parts = All-split _ before (w ∷ after) h in All-append _ before after parts.0 parts.1.1

-- The receives, the ticker and the end of `Run`.
Safe-receive :
    (b : Bufferer) (text : Text) (rest : List Text)
    → b.run_ended ≡ false
    → b.pipe ≡ text ∷ rest
    → Safe b
    → Safe (receive b text rest)
Safe-receive b text rest r e s =
    let f = receive_frame b text rest in
    record {
      balanced = receive-Balanced b text rest e s.balanced;
      quiet = rw (f.0, f.1) s.quiet;
      ordered = rw (f.1, f.2) s.ordered;
      waits = rw (f.3, f.2) s.waits;
      sound = f.4 ∙ s.sound;
      over = λ o. absurd (cc (f.5));
    }

Safe-tick : (b : Bufferer) → b.run_ended ≡ false → Safe b → Safe (tick b)
Safe-tick b r s =
    let f = tick_frame b in
    record {
      balanced = tick-Balanced b s.balanced;
      quiet = rw (f.0, f.1) s.quiet;
      ordered = rw (f.1, f.2) s.ordered;
      waits = rw (f.3, f.2) s.waits;
      sound = f.4 ∙ s.sound;
      over = λ o. absurd (cc (f.5));
    }

Safe-end : (b : Bufferer) → b.pipe ≡ [] → b.pipe_closed ≡ true → Safe b → Safe (end_run b)
Safe-end b p c s =
    let f = tick_frame b in
    rw end_run-tick (record {
      balanced = tick-Balanced b s.balanced;
      quiet = rw (f.0, f.1) s.quiet;
      ordered = rw (f.1, f.2) s.ordered;
      waits = rw (f.3, f.2) s.waits;
      sound = f.4 ∙ s.sound;
      over = λ o. (f.6 ∙ p, f.7, f.1 ∙ c);
    })

-- A writer that is to send meets an open channel.
open_channel :
    (b : Bufferer) (before : List Writing) (w : Writing) (after : List Writing)
    → b.writers ≡ before ++ w ∷ after
    → w.sending ≡ true
    → Safe b
    → b.pipe_closed ≡ false
open_channel b before w after e h s = elim (Bool-cases b.pipe_closed) [
  | inl c ↦
      let all = subst (All (λ w. w.sending ≡ false)) e (s.quiet c) in
      absurd (cc ((All-split _ before (w ∷ after) all).1.0))
  | inr c ↦ c
]

Safe-push :
    (b : Bufferer) (before : List Writing) (w : Writing) (after : List Writing)
    → b.writers ≡ before ++ w ∷ after
    → w.sending ≡ true
    → Safe b
    → Safe (push b before w after)
unfolding push
Safe-push b before w after e h s =
    let c = open_channel b before w after e h s in
    rw c (record {
      balanced = push-Balanced b w.payload s.balanced;
      quiet = λ q. absurd (cc);
      ordered = λ q. absurd (cc);
      waits = s.waits;
      sound = s.sound;
      over = λ o. absurd (cc (s.over o).2);
    })

Safe-step : {b c : Bufferer} → Step b c → Safe b → Safe c
unfolding enter check give_up begin_close lock_writers close_pipe
Safe-step {b} (receives text rest r e q) s = rw q (Safe-receive b text rest r e s)
Safe-step {b} (ticks r q) s = rw q (Safe-tick b r s)
Safe-step {b} (ends r p c q) s = rw q (Safe-end b p c s)
Safe-step {b} (enters payload w q) s = rw q (record {
  balanced = s.balanced;
  quiet = λ c. (refl, s.quiet c);
  ordered = s.ordered;
  waits = s.waits;
  sound = s.sound;
  over = s.over;
})
Safe-step {b} (checks before w after e h q) s = rw q (elim (Bool-cases b.done) [
  | inl shut ↦ rw shut (record {
    balanced = s.balanced;
    quiet = λ c. drop_quiet before w after (subst (All (λ w. w.sending ≡ false)) e (s.quiet c));
    ordered = λ c. refl;
    waits = λ c. refl;
    sound = s.sound;
    over = s.over;
  })
  | inr ready ↦ rw ready (record {
    balanced = s.balanced;
    quiet = λ c. absurd (cc (s.ordered c));
    ordered = λ c. sym ready ∙ s.ordered c;
    waits = λ c. sym ready ∙ s.waits c;
    sound = s.sound;
    over = s.over;
  })
])
Safe-step {b} (pushes before w after e h room q) s = rw q (Safe-push b before w after e h s)
Safe-step {b} (gives_up before w after e h d q) s = rw q (record {
  balanced = s.balanced;
  quiet = λ c. drop_quiet before w after (subst (All (λ w. w.sending ≡ false)) e (s.quiet c));
  ordered = s.ordered;
  waits = s.waits;
  sound = s.sound;
  over = s.over;
})
Safe-step {b} (closes q) s = rw q (elim (Bool-cases b.closed) [
  | inl shut ↦ simp shut s
  | inr first ↦ rw first (record {
    balanced = s.balanced;
    quiet = s.quiet;
    ordered = λ c. refl;
    waits = λ c. refl;
    sound = s.sound;
    over = s.over;
  })
])
Safe-step {b} (locks d p q) s = rw q (record {
  balanced = s.balanced;
  quiet = s.quiet;
  ordered = s.ordered;
  waits = λ c. d;
  sound = s.sound;
  over = s.over;
})
Safe-step {b} (closes_pipe w e q) s = rw q (record {
  balanced = s.balanced;
  quiet = λ c. rw e tt;
  ordered = λ c. s.waits w;
  waits = λ c. s.waits w;
  sound = s.sound;
  over = λ o. ((s.over o).0, (s.over o).1, refl);
})

Safe-Reach : {b c : Bufferer} → Reach b c → Safe b → Safe c
Safe-Reach here s = s
Safe-Reach (next r st) s = Safe-step st (Safe-Reach r s)

new-Safe : (chan_size flush_size : ℕ) → Safe (new_bufferer chan_size flush_size)
unfolding new_bufferer
new-Safe chan_size flush_size = record {
  balanced = refl;
  quiet = λ c. tt;
  ordered = λ c. cc;
  waits = λ c. cc;
  sound = refl;
  over = λ o. absurd (cc);
}

-- When `Run` has ended, what was flushed is exactly what was accepted, in the order of acceptance.
pub flushed-accepted :
    (chan_size flush_size : ℕ) {b : Bufferer}
    → Reach (new_bufferer chan_size flush_size) b
    → b.run_ended ≡ true
    → concat b.flushed ≡ concat b.accepted
flushed-accepted chan_size flush_size {b} r e =
    let s = Safe-Reach r (new-Safe chan_size flush_size) in
    let o = s.over e in
    let h : (concat b.flushed ++ []) ++ [] ≡ concat b.accepted =
      subst (λ p. (concat b.flushed ++ []) ++ concat p ≡ concat b.accepted) o.0
        (subst (λ t. (concat b.flushed ++ t) ++ concat b.pipe ≡ concat b.accepted) o.1
          s.balanced) in
    sym (append-nil (concat b.flushed)) ∙ sym (append-nil (concat b.flushed ++ [])) ∙ h

-- No order of writes and closes sends on the closed channel.
pub push_never_panics :
    (chan_size flush_size : ℕ) {b : Bufferer}
    → Reach (new_bufferer chan_size flush_size) b
    → b.panicked ≡ false
push_never_panics chan_size flush_size r = (Safe-Reach r (new-Safe chan_size flush_size)).sound
