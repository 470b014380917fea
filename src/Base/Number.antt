-- ===== src/Base/Number.antt =====
-- Go's `int` as an integer, its decimal print, and the equality of integers.
use Prim.Native.Nat.{ℕ, zero, suc, ◌+◌, ◌-◌, ◌*◌, ◌/◌, ◌%◌, ◌≤◌, ◌<◌}
use mathlib.Core.Path.{◌≡◌, refl, ap, ◌∙◌}
use mathlib.Core.Logic.{◌↔◌, inl, inr}
use mathlib.Core.Bool.{Bool, true, false}
use mathlib.Core.List.{[], ◌∷◌}
use native.Mathlib.Omega.{arith}
use snake_runner.Base.Tests.{nat_beq, ltb, if◌then◌else◌, Bool-cases}
use snake_runner.Base.Lists.{All}
use snake_runner.Base.Equality.{Eq}
use snake_runner.Base.Bytes.{Text}

-- `negsuc n` is -(n + 1).
pub data ℤ : Type 0 where
  pos : ℕ → ℤ
  negsuc : ℕ → ℤ

abbrev pub int_beq : ℤ → ℤ → Bool
int_beq (pos a) (pos b) = nat_beq a b
int_beq (pos a) (negsuc b) = false
int_beq (negsuc a) (pos b) = false
int_beq (negsuc a) (negsuc b) = nat_beq a b

pub int_beq_iff : (a b : ℤ) → (int_beq a b ≡ true) ↔ (a ≡ b)
int_beq_iff (pos a) (pos b) = ground arith
int_beq_iff (pos a) (negsuc b) = ground arith
int_beq_iff (negsuc a) (pos b) = ground arith
int_beq_iff (negsuc a) (negsuc b) = ground arith

instance abbrev pub int_eq : Eq ℤ
int_eq = record { same = int_beq; same_iff = int_beq_iff }

-- The digits of `n` in front of `out`; `n` rounds are enough.
digits_of : ℕ → ℕ → Text → Text
digits_of zero n out = out
digits_of (suc fuel) n out = elim (ltb n 10) [
  | true ↦ (b'0' + n) ∷ out
  | false ↦ digits_of fuel (n / 10) ((b'0' + n % 10) ∷ out)
]

-- `strconv.Itoa` and `fmt.Sprint` of an integer.
unfoldable pub itoa : ℤ → Text
unfolding digits_of
itoa (pos n) = digits_of (suc n) n []
itoa (negsuc n) = b'-' ∷ digits_of (suc (suc n)) (suc n) []

-- The number that the digits stand for, behind those that stand for `read`.
abbrev value_from : ℕ → Text → ℕ
value_from read [] = read
value_from read (c ∷ s) = value_from (read * 10 + (c - b'0')) s

-- `strconv.Atoi` of what `itoa` prints.
unfoldable pub atoi : Text → ℤ
atoi [] = pos 0
atoi (c ∷ s) = if nat_beq c b'-' then negsuc (value_from 0 s - 1) else pos (value_from 0 (c ∷ s))

digits_of-value :
    (fuel n : ℕ) (out : Text) → n < fuel → value_from 0 (digits_of fuel n out) ≡ value_from n out
unfolding digits_of
digits_of-value zero n out h = elim h [ ]
digits_of-value (suc fuel) n out h = elim (Bool-cases (ltb n 10)) [
  | inl small ↦ rw (small, digits_of) (ap (λ k. value_from k out) (omega arith))
  | inr large ↦
      rw (large, digits_of)
        (digits_of-value fuel (n / 10) _ (ground arith) ∙ ap (λ k. value_from k out) (omega arith))
]

-- A digit is neither a slash nor a sign.
abbrev pub Digits : Text → Type 0
Digits = All (λ c. b'0' ≤ c)

digits_of-Digits : (fuel n : ℕ) (out : Text) → Digits out → Digits (digits_of fuel n out)
unfolding digits_of
digits_of-Digits zero n out h = h
digits_of-Digits (suc fuel) n out h = elim (Bool-cases (ltb n 10)) [
  | inl small ↦ rw (small, digits_of) (omega arith, h)
  | inr large ↦ rw (large, digits_of) (digits_of-Digits fuel (n / 10) _ (omega arith, h))
]

atoi-Digits : (s : Text) → Digits s → atoi s ≡ pos (value_from 0 s)
unfolding atoi
atoi-Digits [] h = refl
atoi-Digits (c ∷ s) h = ground (arith, h.0)

no_slash : (s : Text) → Digits s → All (λ c. nat_beq c b'/' ≡ false) s
no_slash [] h = tt
no_slash (c ∷ s) h = (ground arith, no_slash s h.1)

-- What is printed is read back.
pub atoi-itoa : (a : ℤ) → atoi (itoa a) ≡ a
unfolding itoa atoi
atoi-itoa (pos n) =
    atoi-Digits (digits_of (suc n) n []) (digits_of-Digits (suc n) n [] tt)
    ∙ ap pos (digits_of-value (suc n) n [] (omega arith))
atoi-itoa (negsuc n) =
    ap (λ k. negsuc (k - 1)) (digits_of-value (suc (suc n)) (suc n) [] (omega arith))
    ∙ ap negsuc (omega arith)

-- No slash stands in the print of a number.
pub itoa_plain : (a : ℤ) → All (λ c. nat_beq c b'/' ≡ false) (itoa a)
unfolding itoa
itoa_plain (pos n) = no_slash (digits_of (suc n) n []) (digits_of-Digits (suc n) n [] tt)
itoa_plain (negsuc n) = (
  refl,
  no_slash (digits_of (suc (suc n)) (suc n) []) (digits_of-Digits (suc (suc n)) (suc n) [] tt),
)

no_sign : (s : Text) → Digits s → All (λ c. nat_beq c b'-' ≡ false) s
no_sign [] h = tt
no_sign (c ∷ s) h = (ground arith, no_sign s h.1)

-- No sign stands in the print of a number that is not negative.
pub itoa_unsigned : (n : ℕ) → All (λ c. nat_beq c b'-' ≡ false) (itoa (pos n))
unfolding itoa
itoa_unsigned n = no_sign (digits_of (suc n) n []) (digits_of-Digits (suc n) n [] tt)
