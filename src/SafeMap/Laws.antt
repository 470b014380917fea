-- ===== src/SafeMap/Laws.antt =====
-- The map against a function from keys to values, and what `Range` visits.
use snake_runner.Base.{
  List, [], ◌∷◌, ◌++◌, map, append_assoc, append-nil, none, some, Bool, true, Eq, ◌==◌, lookup,
  lookup-insert, lookup-remove, Any, if◌then◌else◌, ◌≡◌, ◌≢◌, ◌⊎◌, refl, sym, arith, ◌∙◌,
}
use snake_runner.SafeMap.{SafeMap, load, load_or_store, delete, range}

module _ {ℓ κ} {K : Type ℓ} {V : Type κ} ⦃e : Eq K⦄ where
  pub load-delete :
      (safe : SafeMap K V) (key other : K)
      → load (delete safe key) other ≡ (if key == other then none else load safe other)
  unfolding delete
  load-delete safe key other = ground (arith, e.same_iff key other, lookup-remove key other safe)

  -- `LoadOrStore` returns the value that the key had, or else the new one; afterwards the key has
  -- what was returned and every other key what it had, and a second call changes nothing.
  pub load_or_store_lem :
      (safe : SafeMap K V) (key other : K) (value again : V)
      → let (safe', result) = load_or_store safe key value in
        ((load safe key ≡ some result) ⊎ ((load safe key ≡ none) × (result ≡ value)))
        × (load safe' other ≡ (if key == other then some result else load safe other))
        × (load_or_store safe' key again ≡ (safe', result))
  unfolding load_or_store
  load_or_store_lem safe key other value again = (
    ground arith,
    ground (arith, lookup-insert key other value safe, e.same_iff key other),
    ground (arith, lookup-insert key key value safe, e.same_iff key key),
  )

-- The callback that collects the keys, as in `getPipelines`.
abbrev pub collect_key {ℓ κ} : {K : Type ℓ} {V : Type κ} → List K → K → V → List K × Bool
collect_key keys key value = (keys ++ key ∷ [], true)

module _ {ℓ κ} {K : Type ℓ} {V : Type κ} where
  pub range-collect_key :
      (safe : SafeMap K V) (keys : List K)
      → range collect_key safe keys ≡ keys ++ map (λ entry. entry.0) safe
  unfolding range
  range-collect_key [] keys = sym (append-nil keys)
  range-collect_key ((key, value) ∷ safe) keys =
      range-collect_key safe (keys ++ key ∷ [])
      ∙ append_assoc keys (key ∷ []) (map (λ entry. entry.0) safe)

module _ {ℓ κ} {K : Type ℓ} {V : Type κ} ⦃e : Eq K⦄ where
  -- A key that the map has is among those that `Range` visits.
  pub Any-keys :
      (safe : SafeMap K V) (key : K)
      → load safe key ≢ none
      → Any (λ k. (k == key) ≡ true) (map (λ entry. entry.0) safe)
  unfolding lookup
  Any-keys [] key h = h refl
  Any-keys ((k, v) ∷ safe) key h = ground (arith, Any-keys safe key)
