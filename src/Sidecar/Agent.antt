-- ===== src/Sidecar/Agent.antt =====
-- internal/sidecar/ssh-agent.go: `startSshAgent` and the goroutine that runs the agent, with the two
-- channels between them. The agent's process prints and ends as it likes.
pub mod Answers
use snake_runner.Base.{
  ℕ, zero, suc, Text, codes, Option, none, some, Bool, true, false, if◌then◌else◌, ◌≡◌,
}
use snake_runner.Errors.{Error, message, format, is_canceled}
use snake_runner.Masker.Replace.{contains}

-- What `startSshAgent` returns.
pub data Answer : Type 0 where
  gives_socket : Answer
  is_interrupted : Answer
  fails : Error → Answer

pub record Agent : Type 0 where
  -- whether there is a message in `chStarted`, and the one in `chError`; each has room for one
  pub started : Bool
  pub error : Option Error
  -- the context is done
  pub interrupted : Bool
  -- `sshAgent.Done()`
  pub stopped : Bool
  -- whether the agent has printed the variable
  pub printed : Bool
  pub answer : Option Answer

abbrev pub new_agent : Agent
new_agent = record {
  started = false;
  error = none;
  interrupted = false;
  stopped = false;
  printed = false;
  answer = none;
}

abbrev pub socket_variable : Text
socket_variable = codes "SSH_AUTH_SOCK="

-- `callback`: `none` where the send blocks.
unfoldable pub on_output : Agent → Text → Option Agent
on_output a text =
    if contains text socket_variable
    then if a.started then none else some (record a { started = true; printed = true })
    else some a

-- The goroutine behind `Exec`.
unfoldable pub on_end : Agent → Option Error → Agent
on_end a (some error) = if is_canceled error then record a { stopped = true } else record a {
  error = some (format error (codes "unable to start ssh-agent"));
  stopped = true;
}
on_end a none = record a {
  error = some (
      format
        (message (codes "the ssh-agent process has started and did not output the path to socket"))
        (codes "unable to start ssh-agent"));
  stopped = true;
}

-- The `select` of `startSshAgent`, which takes any of the cases that are ready.
pub data Select (a b : Agent) : Type 0 where
  interrupts : a.interrupted ≡ true → b ≡ record a { answer = some is_interrupted } → Select a b
  starts :
      a.started ≡ true → b ≡ record a { started = false; answer = some gives_socket } → Select a b
  reports :
      (error : Error)
      → a.error ≡ some error
      → b ≡ record a { error = none; answer = some (fails error) }
      → Select a b

pub data Step (a b : Agent) : Type 0 where
  -- the context is canceled
  cancels : b ≡ record a { interrupted = true } → Step a b
  prints : (text : Text) → a.stopped ≡ false → on_output a text ≡ some b → Step a b
  -- the execution is only canceled by the context
  ends :
      (error : Option Error)
      → a.stopped ≡ false
      → ((e : Error) → error ≡ some e → is_canceled e ≡ true → a.interrupted ≡ true)
      → b ≡ on_end a error
      → Step a b
  selects : a.answer ≡ none → Select a b → Step a b

pub data Reach (a : Agent) : Agent → Type 0 where
  here : Reach a a
  next : {b c : Agent} → Reach a b → Step b c → Reach a c
