-- ===== src/Docker/Execs.antt =====
-- `Exec` and `DetectShell`: a command in a container, and the search for bash in it.
use snake_runner.Base.{
  ℤ, pos, negsuc, ltb, Bool, Text, codes, List, [], ◌∷◌, ◌++◌, Option, none, some, false, is_empty,
  if◌then◌else◌, ◌≡◌, refl, ◌↔◌, inl, inr, arith, Option-cases, Bool-cases,
}
use snake_runner.Errors.{Error, message, format}
use snake_runner.Masker.{trim_space}

-- How the calls of the client end: the creation of the execution, the attachment, the copy of the
-- output, the inspection; the exit code that the inspection reports; and the output, in the chunks
-- in which it is copied.
pub record ExecEngine : Type 0 where
  pub create : Option Error
  pub attach : Option Error
  pub copy : Option Error
  pub inspect : Option Error
  pub exit_code : ℤ
  pub output : List Text

abbrev pub is_positive : ℤ → Bool
is_positive (pos n) = ltb 0 n
is_positive (negsuc n) = false

abbrev then_do : Option Error → (Error → Error) → Option Error → Option Error
then_do none put next = next
then_do (some error) put next = some (put error)

-- `Exec`
unfoldable pub exec : ExecEngine → Option Error
exec engine =
    then_do engine.create (λ e. e)
      (then_do engine.attach (λ e. e)
        (then_do engine.copy (λ e. format e (codes "unable to read stdout of exec/attach"))
          (then_do engine.inspect (λ e. format e (codes "unable to inspect container/exec"))
            (if is_positive engine.exit_code
              then some (message (codes "exitcode is greater than zero"))
              else none))))

-- A command is reported to have succeeded if and only if each call of the client succeeded and the
-- exit code is not greater than zero.
pub exec_lem :
    (engine : ExecEngine)
    → (exec engine ≡ none) ↔ (
        (engine.create ≡ none)
        × (engine.attach ≡ none)
        × (engine.copy ≡ none)
        × (engine.inspect ≡ none)
        × (is_positive engine.exit_code ≡ false))
unfolding exec
exec_lem engine = ground arith

-- `callback`: the lines that are not blank, joined.
unfoldable pub gather : Text → List Text → Text
gather output [] = output
gather output (line ∷ lines) =
    gather
      (if is_empty (trim_space line)
        then output
        else if is_empty output
        then trim_space line
        else output ++ (10 ∷ trim_space line))
      lines

abbrev pub default_shell : Text
default_shell = codes "sh"

-- `DetectShell` where the execution ends with an error or none.
unfoldable pub detect_shell : ExecEngine → Text × Option Error
unfolding exec gather
detect_shell engine =
    let program = trim_space (gather [] engine.output) in
    elim (exec engine) [
      | some error ↦ ([], some (format error (codes "execution of shell detection script failed")))
      | none ↦ if is_empty program then (default_shell, none) else (program, none)
    ]

-- A detection without an error names a shell.
pub detect_shell_names :
    (engine : ExecEngine)
    → (detect_shell engine).1 ≡ none
    → (exec engine ≡ none) × (is_empty (detect_shell engine).0 ≡ false)
unfolding detect_shell
detect_shell_names engine h = elim (Option-cases (exec engine)) [
  | inr (error, e) ↦ absurd (cc (rw (e, detect_shell) at h))
  | inl e ↦ elim (Bool-cases (is_empty (trim_space (gather [] engine.output)))) [
    | inl blank ↦ (e, rw (e, detect_shell) (rw blank refl))
    | inr named ↦ (e, rw (e, detect_shell) (rw named named))
  ]
]
