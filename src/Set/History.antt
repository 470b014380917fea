-- ===== src/Set/History.antt =====
-- What a set holds after any calls of its methods.
use snake_runner.Base.{
  List, [], ◌∷◌, Bool, true, false, ◌||◌, Eq, ◌==◌, lookup, lookup-insert, lookup-remove,
  if◌then◌else◌, ◌≡◌, refl, arith,
}
use snake_runner.Set.{TypeSet, has, put, discard, values}

-- The calls that change a set.
pub data Change {ℓ} (Item : Type ℓ) : Type ℓ where
  puts : Item → Change Item
  deletes : Item → Change Item

module _ {ℓ} {Item : Type ℓ} ⦃keys : Eq Item⦄ where
  unfoldable pub change_all : TypeSet Item → List (Change Item) → TypeSet Item
  unfolding put discard
  change_all set [] = set
  change_all set (puts value ∷ changes) = change_all (put set value) changes
  change_all set (deletes value ∷ changes) = change_all (discard set value) changes

  -- What the last call for a value says, or else what was so before.
  abbrev pub last_says : Item → Bool → List (Change Item) → Bool
  last_says value before [] = before
  last_says value before (puts other ∷ changes) =
      last_says value (if other == value then true else before) changes
  last_says value before (deletes other ∷ changes) =
      last_says value (if other == value then false else before) changes

  pub has-put :
      (set : TypeSet Item) (other value : Item)
      → has (put set other) value ≡ (if other == value then true else has set value)
  unfolding has put
  has-put set other value = ground (arith, lookup-insert other value tt set)

  pub has-discard :
      (set : TypeSet Item) (other value : Item)
      → has (discard set other) value ≡ (if other == value then false else has set value)
  unfolding has discard
  has-discard set other value = ground (arith, lookup-remove other value set)

  -- After any puts and deletes a set has a value if and only if the last of them for this value was
  -- a put, or there was none and the set had it before.
  pub has-change_all :
      (set : TypeSet Item) (changes : List (Change Item)) (value : Item)
      → has (change_all set changes) value ≡ last_says value (has set value) changes
  unfolding change_all
  has-change_all set [] value = refl
  has-change_all set (puts other ∷ changes) value =
      rw (has-change_all (put set other) changes value, has-put set other value) refl
  has-change_all set (deletes other ∷ changes) value =
      rw (has-change_all (discard set other) changes value, has-discard set other value) refl

  -- A value is one of those listed.
  abbrev pub is_one_of : Item → List Item → Bool
  is_one_of value [] = false
  is_one_of value (other ∷ others) = other == value || is_one_of value others

  -- The values are exactly those for which `Has` returns true.
  pub has-values :
      (set : TypeSet Item) (value : Item) → is_one_of value (values set) ≡ has set value
  unfolding has values lookup
  has-values [] value = refl
  has-values ((other, found) ∷ set) value = ground (arith, has-values set value)
