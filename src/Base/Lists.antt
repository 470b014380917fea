-- ===== src/Base/Lists.antt =====
-- Lists measured and indexed by native numbers, and predicates on lists by recursion.
use Prim.Native.Nat.{ℕ, zero, suc, ◌+◌}
use mathlib.Core.Path.{◌≡◌, refl, ap}
use mathlib.Core.Bool.{Bool}
use mathlib.Core.Logic.{◌⊎◌, inl, inr}
use mathlib.Core.List.{List, [], ◌∷◌, ◌++◌}
use native.Mathlib.Omega.{arith}
use snake_runner.Base.Tests.{if◌then◌else◌}

module _ {ℓ} {A : Type ℓ} where
  abbrev pub length : List A → ℕ
  length [] = 0
  length (x ∷ xs) = suc (length xs)

  abbrev pub drop : ℕ → List A → List A
  drop zero xs = xs
  drop (suc n) [] = []
  drop (suc n) (x ∷ xs) = drop n xs

  abbrev pub take : ℕ → List A → List A
  take zero xs = []
  take (suc n) [] = []
  take (suc n) (x ∷ xs) = x ∷ take n xs

  abbrev pub replicate : ℕ → A → List A
  replicate zero a = []
  replicate (suc n) a = a ∷ replicate n a

  -- The elements that pass a test, in order.
  abbrev pub keep : (A → Bool) → List A → List A
  keep p [] = []
  keep p (x ∷ xs) = if p x then x ∷ keep p xs else keep p xs

  pub length-append : (xs ys : List A) → length (xs ++ ys) ≡ length xs + length ys
  length-append [] ys = omega arith
  length-append (x ∷ xs) ys = omega (arith, length-append xs ys)

  pub length-replicate : (n : ℕ) (a : A) → length (replicate n a) ≡ n
  length-replicate zero a = refl
  length-replicate (suc n) a = ap suc (length-replicate n a)

  pub keep-append : (p : A → Bool) (xs ys : List A) → keep p (xs ++ ys) ≡ keep p xs ++ keep p ys
  keep-append p [] ys = refl
  keep-append p (x ∷ xs) ys = ground (arith, keep-append p xs ys)

-- `P` holds of every element, or of some element.
module _ {κ ℓ} {Item : Type ℓ} (Keeps : Item → Type κ) where
  abbrev pub All : (items : List Item) → Type κ
  All (item ∷ items) = Keeps item × All items
  All [] = Unit

  pub All-append : (front back : List Item) → All front → All back → All (front ++ back)
  All-append [] back none_left kept = kept
  All-append (item ∷ front) back first kept = (first.0, All-append front back first.1 kept)

abbrev pub Any {ℓ} : {A : Type ℓ} → (A → Type 0) → List A → Type 0
Any P [] = ⊥
Any P (x ∷ xs) = P x ⊎ Any P xs

pub All-split {ℓ κ} :
    {A : Type ℓ} (P : A → Type κ) (xs ys : List A) → All P (xs ++ ys) → All P xs × All P ys
All-split P [] ys h = (tt, h)
All-split P (x ∷ xs) ys h = let rest = All-split P xs ys h.1 in ((h.0, rest.0), rest.1)

-- The lists one after another.
abbrev pub concat {ℓ} : {A : Type ℓ} → List (List A) → List A
concat [] = []
concat (l ∷ ls) = l ++ concat ls

module _ {ℓ} {A : Type ℓ} (P : A → Type 0) where
  pub Any-append : (xs ys : List A) → Any P (xs ++ ys) → Any P xs ⊎ Any P ys
  Any-append [] ys h = inr h
  Any-append (x ∷ xs) ys (inl h) = inl (inl h)
  Any-append (x ∷ xs) ys (inr h) = elim (Any-append xs ys h) [ inl l ↦ inl (inr l) | inr r ↦ inr r ]

  pub Any-left : (xs ys : List A) → Any P xs → Any P (xs ++ ys)
  Any-left [] ys h = absurd h
  Any-left (x ∷ xs) ys (inl h) = inl h
  Any-left (x ∷ xs) ys (inr h) = inr (Any-left xs ys h)

  pub Any-right : (xs ys : List A) → Any P ys → Any P (xs ++ ys)
  Any-right [] ys h = h
  Any-right (x ∷ xs) ys h = inr (Any-right xs ys h)
