-- ===== src/Local/Kills.antt =====
-- Which commands `Destroy` kills, and when it panics.
use snake_runner.Base.{
  ℕ, zero, suc, ◌-◌, ◌≤◌, ◌<◌, nat_eq, nat_beq, nat_beq_iff, ltb, lookup, List, [], ◌∷◌, ◌++◌, map,
  length, replicate, Option, Option-cases, none, some, Bool, Bool-cases, true, false, ◌≡◌, refl, ap,
  ◌∙◌, ◌⊎◌, inl, inr, arith,
}
use snake_runner.Set.{has, values, list}
use snake_runner.Set.History.{has-put, has-discard, has-values, is_one_of}
use snake_runner.Local.{
  Phase, waiting, ended, Box, new_box, start, register, end_wait, unregister, begin_destroy,
  kill_all, end_destroy, Step, starts, registers, waits, unregisters, begins_destroy, ends_destroy,
  Reach, here, next,
}

abbrev is_registered : Phase → Bool
is_registered waiting = true
is_registered ended = true
is_registered _ = false

abbrev IsKept : Box → Type 0
IsKept box = (n : ℕ) → has box.processes n ≡ is_registered (box.phase n)

kill_all_same :
    (box : Box) (commands : List (Option ℕ))
    → ((kill_all box commands).processes ≡ box.processes)
      × ((kill_all box commands).phase ≡ box.phase)
unfolding kill_all
kill_all_same box [] = (refl, refl)
kill_all_same box (none ∷ commands) = (refl, refl)
kill_all_same box (some n ∷ commands) =
    kill_all_same (record box { killed = n ∷ box.killed }) commands

end_destroy_same :
    (box : Box) (size : ℕ)
    → ((end_destroy box size).processes ≡ box.processes)
      × ((end_destroy box size).phase ≡ box.phase)
unfolding end_destroy
end_destroy_same box size = elim (Option-cases (list size box.processes)) [
  | inl e ↦ rw (e, end_destroy) (refl, refl)
  | inr (commands, e) ↦
      rw (e, end_destroy) (kill_all_same (record box { destroying = none }) commands)
]

Step-IsKept : {b c : Box} → Step b c → IsKept b → IsKept c
unfolding start register end_wait unregister begin_destroy
Step-IsKept {b} (starts n p e) k = rw e (λ m. ground (arith, k m, nat_beq_iff n m))
Step-IsKept {b} (registers n p e) k =
    rw e (λ m. has-put b.processes n m ∙ ground (arith, k m, nat_beq_iff n m))
Step-IsKept {b} (waits n p e) k = rw e (λ m. ground (arith, k m, nat_beq_iff n m))
Step-IsKept {b} (unregisters n p e) k =
    rw e (λ m. has-discard b.processes n m ∙ ground (arith, k m, nat_beq_iff n m))
Step-IsKept (begins_destroy d e) k = rw e k
Step-IsKept {b} (ends_destroy size d e) k =
    let same = end_destroy_same b size in rw (e, same.0, same.1) k

Reach-IsKept : {b c : Box} → Reach b c → IsKept b → IsKept c
Reach-IsKept here k = k
Reach-IsKept (next r st) k = Step-IsKept st (Reach-IsKept r k)

-- The loop keeps what was killed.
kill_all_keeps :
    (n : ℕ) (box : Box) (commands : List (Option ℕ))
    → is_one_of n box.killed ≡ true
    → is_one_of n (kill_all box commands).killed ≡ true
unfolding kill_all
kill_all_keeps n box [] h = h
kill_all_keeps n box (none ∷ commands) h = h
kill_all_keeps n box (some m ∷ commands) h =
    kill_all_keeps n (record box { killed = m ∷ box.killed }) commands (ground (arith, h))

-- It kills every command in front of the first nil.
kill_all_kills :
    (n : ℕ) (box : Box) (commands : List ℕ) (rest : List (Option ℕ))
    → is_one_of n commands ≡ true
    → is_one_of n (kill_all box (map some commands ++ rest)).killed ≡ true
unfolding kill_all
kill_all_kills n box [] rest h = absurd (cc h)
kill_all_kills n box (m ∷ commands) rest h = elim (Bool-cases (nat_beq m n)) [
  | inl hit ↦
      kill_all_keeps n (record box { killed = m ∷ box.killed }) (map some commands ++ rest)
        (ground (arith, hit))
  | inr miss ↦
      kill_all_kills n (record box { killed = m ∷ box.killed }) commands rest
        (ground (arith, h, miss))
]

-- It panics if and only if a command is nil.
kill_all_panics :
    (box : Box) (commands : List ℕ) (more : ℕ)
    → box.panicked ≡ false
    → (kill_all box (map some commands ++ replicate more none)).panicked ≡ ltb 0 more
unfolding kill_all
kill_all_panics box [] zero h = h
kill_all_panics box [] (suc more) h = ground arith
kill_all_panics box (n ∷ commands) more h =
    kill_all_panics (record box { killed = n ∷ box.killed }) commands more h

list_short :
    (box : Box) (size : ℕ)
    → ltb size (length box.processes) ≡ true
    → ((end_destroy box size).killed ≡ box.killed) × ((end_destroy box size).panicked ≡ true)
unfolding end_destroy list
list_short box size h = rw (h, end_destroy, list) (refl, refl)

list_long :
    (box : Box) (size : ℕ)
    → ltb size (length box.processes) ≡ false
    → end_destroy box size
      ≡ kill_all
          (record box { destroying = none })
          (map some (values box.processes) ++ replicate (size - length box.processes) none)
unfolding end_destroy list
list_long box size h = rw (h, end_destroy, list) refl

-- `Destroy` that has read the number of the registered commands, and goes on when their set is
-- locked, kills every command whose `Exec` has registered it and still waits for it, unless there are
-- more commands by then: then it panics and kills none. It panics too, after it has killed them, if
-- there are fewer by then.
pub destroy_kills :
    {b : Box} (n size : ℕ)
    → Reach new_box b
    → b.phase n ≡ waiting
    → b.destroying ≡ some size
    → b.panicked ≡ false
    → ((size < length b.processes)
        × ((end_destroy b size).killed ≡ b.killed)
        × ((end_destroy b size).panicked ≡ true))
      ⊎ ((length b.processes ≤ size)
          × (is_one_of n (end_destroy b size).killed ≡ true)
          × ((end_destroy b size).panicked ≡ ltb (length b.processes) size))
unfolding lookup has
destroy_kills {b} n size r w d quiet = elim (Bool-cases (ltb size (length b.processes))) [
  | inl short ↦ let all = list_short b size short in inl (ground arith, all.0, all.1)
  | inr long ↦
      let there : is_one_of n (values b.processes) ≡ true =
        has-values b.processes n ∙ Reach-IsKept r (λ m. refl) n ∙ ap is_registered w in
      let rest = size - length b.processes in
      inr (
        ground arith,
        rw (list_long b size long) (
            kill_all_kills n (record b { destroying = none }) (values b.processes)
              (replicate rest none) there),
        rw (list_long b size long) (
            kill_all_panics (record b { destroying = none }) (values b.processes) rest quiet
            ∙ ground arith),
      )
]
