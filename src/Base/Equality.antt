-- ===== src/Base/Equality.antt =====
-- Equality of keys as an instance: Go compares the keys of a map by `==`.
use Prim.Native.Nat.{ℕ}
use mathlib.Core.Path.{◌≡◌, refl}
use mathlib.Core.Logic.{◌↔◌, ◌≢◌}
use mathlib.Core.Bool.{Bool, true, false}
use native.Mathlib.Omega.{arith}
use snake_runner.Base.Tests.{nat_beq, nat_beq_iff}

-- The keys of a map: a test, which tells equal keys from others.
pub record Eq {κ} (Key : Type κ) : Type κ where
  pub same : (left right : Key) → Bool
  pub same_iff : (left right : Key) → (same left right ≡ true) ↔ (left ≡ right)

instance abbrev pub nat_eq : Eq ℕ
nat_eq = record { same = nat_beq; same_iff = nat_beq_iff }

module _ {κ} {Key : Type κ} ⦃keys : Eq Key⦄ where
  infix 50 ◌==◌
  abbrev pub ◌==◌ : Key → Key → Bool
  left == right = keys.same left right

module _ {ℓ} {A : Type ℓ} ⦃e : Eq A⦄ where
  pub eq_self : (a : A) → (a == a) ≡ true
  eq_self a = (e.same_iff a a).1 refl

  pub eq_of_test : (a b : A) → (a == b) ≡ true → a ≡ b
  eq_of_test a b = (e.same_iff a b).0

  pub test_of_ne : (a b : A) → a ≢ b → (a == b) ≡ false
  test_of_ne a b h = ground (arith, e.same_iff a b)
