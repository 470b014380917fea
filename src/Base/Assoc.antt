-- ===== src/Base/Assoc.antt =====
-- A Go map as an association list with one entry for a key.
use mathlib.Core.Path.{◌≡◌, refl}
use mathlib.Core.List.{List, [], ◌∷◌}
use mathlib.Core.Option.{Option, none, some}
use native.Mathlib.Omega.{arith}
use snake_runner.Base.Tests.{if◌then◌else◌}
use snake_runner.Base.Equality.{Eq, ◌==◌}

module _ {ℓ κ} {K : Type ℓ} {V : Type κ} ⦃keys : Eq K⦄ where
  unfoldable pub lookup : (key : K) → List (K × V) → Option V
  lookup key ((held, value) ∷ entries) =
      let behind = lookup key entries in if held == key then some value else behind
  lookup key [] = none

  unfoldable pub remove : (key : K) → List (K × V) → List (K × V)
  remove key [] = []
  remove key ((held, value) ∷ entries) =
      let others = remove key entries in if held == key then others else (held, value) ∷ others

  unfoldable pub insert : (key : K) → (value : V) → List (K × V) → List (K × V)
  insert key value ((held, old) ∷ entries) =
      let behind = insert key value entries in
      if held == key then (key, value) ∷ entries else (held, old) ∷ behind
  insert key value [] = (key, value) ∷ []

  pub lookup-remove :
      (gone key : K) (entries : List (K × V))
      → lookup key (remove gone entries) ≡ (if gone == key then none else lookup key entries)
  unfolding lookup remove
  lookup-remove gone key [] = ground arith
  lookup-remove gone key ((held, value) ∷ entries) = ground (
    arith,
    lookup-remove gone key entries,
    keys.same_iff gone key,
    keys.same_iff held gone,
    keys.same_iff held key,
  )

  pub lookup-insert :
      (new key : K) (value : V) (entries : List (K × V))
      → lookup key (insert new value entries)
        ≡ (if new == key then some value else lookup key entries)
  unfolding lookup insert
  lookup-insert new key value ((held, old) ∷ entries) = ground (
    arith,
    lookup-insert new key value entries,
    keys.same_iff new key,
    keys.same_iff held new,
    keys.same_iff held key,
  )
  lookup-insert new key value [] = refl
