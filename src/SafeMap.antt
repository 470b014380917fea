-- ===== src/SafeMap.antt =====
-- internal/safemap: a map behind a lock, generated for five pairs of a key and a value from the
-- template safemap.go. Each method holds the lock from its first to its last line, so it is one step.
pub mod Laws
use snake_runner.Base.{
  ℤ, Text, List, [], ◌∷◌, Option, none, some, Bool, true, false, Eq, lookup, insert, remove,
  if◌then◌else◌,
}

abbrev pub SafeMap {ℓ κ} : Type ℓ → Type κ → Type (ℓ ⊔ κ)
SafeMap K V = List (K × V)

module _ {ℓ κ} {K : Type ℓ} {V : Type κ} where
  abbrev pub new_map : SafeMap K V
  new_map = []

module _ {ℓ κ} {K : Type ℓ} {V : Type κ} ⦃e : Eq K⦄ where
  abbrev pub load : SafeMap K V → K → Option V
  load safe key = lookup key safe

  abbrev pub store : SafeMap K V → K → V → SafeMap K V
  store safe key value = insert key value safe

  unfoldable pub load_or_store : SafeMap K V → K → V → SafeMap K V × V
  load_or_store safe key value = elim (load safe key) [
    | some existing ↦ (safe, existing)
    | none ↦ (store safe key value, value)
  ]

  unfoldable pub delete : SafeMap K V → K → SafeMap K V
  delete safe key = elim (load safe key) [ some existing ↦ remove key safe | none ↦ safe ]

module _ {ℓ κ ρ} {K : Type ℓ} {V : Type κ} {S : Type ρ} where
  -- The callback changes what it captures, `s`, and says whether to go on.
  unfoldable pub range : (S → K → V → S × Bool) → SafeMap K V → S → S
  range fn [] s = s
  range fn ((key, value) ∷ safe) s =
      let next = range fn safe (fn s key value).0 in
      if (fn s key value).1 then next else (fn s key value).0

-- The generated types; `Any` and a cancel function are whatever the client stores.
abbrev pub StringToString : Type 0
StringToString = SafeMap Text Text

abbrev pub StringToContextCancelFunc : Type 0 → Type 0
StringToContextCancelFunc CancelFunc = SafeMap Text CancelFunc

abbrev pub StringToAny : Type 0 → Type 0
StringToAny Value = SafeMap Text Value

abbrev pub IntToString : Type 0
IntToString = SafeMap ℤ Text

abbrev pub IntToContextCancelFunc : Type 0 → Type 0
IntToContextCancelFunc CancelFunc = SafeMap ℤ CancelFunc

abbrev pub IntToAny : Type 0 → Type 0
IntToAny Value = SafeMap ℤ Value
