-- ===== src/Sidecar/Agent/Answers.antt =====
-- When `startSshAgent` answers, and with what.
use snake_runner.Base.{
  Text, Option, none, some, Bool-cases, true, false, ◌≡◌, refl, subst, ◌⊎◌, inl, inr, arith,
}
use snake_runner.Errors.{Error, is_canceled}
use snake_runner.Masker.Replace.{contains}
use snake_runner.Sidecar.Agent.{
  gives_socket, is_interrupted, fails, Agent, new_agent, socket_variable, on_output, on_end, Select,
  interrupts, starts, reports, Step, cancels, prints, ends, selects, Reach, here, next,
}

-- A message was sent before an answer is given; a stopped agent has left one, or the context is
-- done.
record IsSound (a : Agent) : Type 0 where
  sent : a.started ≡ true → a.printed ≡ true
  given : a.answer ≡ some gives_socket → a.printed ≡ true
  left :
      a.stopped ≡ true
      → a.answer ≡ none
      → (a.interrupted ≡ true) ⊎ ((e : Error) × (a.error ≡ some e))

Select-IsSound : {a b : Agent} → Select a b → IsSound a → IsSound b
Select-IsSound (interrupts d e) s =
    rw e (record { sent = s.sent; given = λ q. absurd (cc q); left = λ p q. absurd (cc q) })
Select-IsSound (starts d e) s =
    rw e (record { sent = λ q. absurd (cc q); given = λ q. s.sent d; left = λ p q. absurd (cc q) })
Select-IsSound (reports error d e) s =
    rw e (record { sent = s.sent; given = λ q. absurd (cc q); left = λ p q. absurd (cc q) })

on_output-IsSound :
    (a b : Agent) (text : Text)
    → a.stopped ≡ false
    → on_output a text ≡ some b
    → IsSound a
    → IsSound b
unfolding on_output
on_output-IsSound a b text alive e s = elim (Bool-cases (contains text socket_variable)) [
  | inr plain ↦ let q : a ≡ b = ground arith in subst IsSound q s
  | inl shown ↦ elim (Bool-cases a.started) [
    | inl full ↦ absurd (ground arith)
    | inr room ↦
        let q : record a { started = true; printed = true } ≡ b = ground arith in
        subst IsSound q
          (record { sent = λ h. refl; given = λ h. refl; left = λ h. absurd (cc (alive, h)) })
  ]
]

on_end-IsSound :
    (a : Agent) (error : Option Error)
    → ((e : Error) → error ≡ some e → is_canceled e ≡ true → a.interrupted ≡ true)
    → IsSound a
    → IsSound (on_end a error)
unfolding on_end
on_end-IsSound a none c s = record { sent = s.sent; given = s.given; left = λ p q. inr (_, refl) }
on_end-IsSound a (some error) c s = elim (Bool-cases (is_canceled error)) [
  | inl e ↦
      rw (e, on_end) (record { sent = s.sent; given = s.given; left = λ p q. inl (c error refl e) })
  | inr e ↦ rw (e, on_end) (record { sent = s.sent; given = s.given; left = λ p q. inr (_, refl) })
]

Step-IsSound : {a b : Agent} → Step a b → IsSound a → IsSound b
Step-IsSound (cancels e) s =
    rw e (record { sent = s.sent; given = s.given; left = λ p q. inl refl })
Step-IsSound {a} {b} (prints text alive e) s = on_output-IsSound a b text alive e s
Step-IsSound {a} (ends error alive c e) s = rw e (on_end-IsSound a error c s)
Step-IsSound (selects waiting e) s = Select-IsSound e s

Reach-IsSound : {a b : Agent} → Reach a b → IsSound a → IsSound b
Reach-IsSound here s = s
Reach-IsSound (next r st) s = Step-IsSound st (Reach-IsSound r s)

new-IsSound : IsSound new_agent
new-IsSound = record { sent = λ h. h; given = λ q. absurd (cc q); left = λ h. absurd (cc h) }

-- A socket is returned only after the agent has printed the variable.
pub agent_socket : {a : Agent} → Reach new_agent a → a.answer ≡ some gives_socket → a.printed ≡ true
agent_socket r = (Reach-IsSound r new-IsSound).given

-- When the agent's process has ended and `startSshAgent` has not returned, one of the cases of its
-- `select` is ready, provided the execution is reported as canceled only where the context is.
pub agent_answers :
    {a : Agent} → Reach new_agent a → a.stopped ≡ true → a.answer ≡ none → (b : Agent) × Select a b
agent_answers {a} r p q = elim ((Reach-IsSound r new-IsSound).left p q) [
  | inl done ↦ (record a { answer = some is_interrupted }, interrupts done refl)
  | inr (error, e) ↦ (record a { error = none; answer = some (fails error) }, reports error e refl)
]
