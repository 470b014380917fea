-- ===== src/Set.antt =====
-- internal/set: a set behind a lock, generated from the template set.go. Each method holds the lock
-- while it uses the map, so it is one step; but `List` reads the map's length before it takes the
-- lock, so that it is two.
pub mod History
use snake_runner.Base.{
  ℕ, ◌-◌, List, [], ◌∷◌, ◌++◌, map, length, replicate, Option, none, some, Bool, true, false, Eq,
  lookup, insert, remove, ltb, if◌then◌else◌,
}

abbrev pub TypeSet {ℓ} : Type ℓ → Type ℓ
TypeSet Item = List (Item × Unit {0})

module _ {ℓ} {Item : Type ℓ} ⦃keys : Eq Item⦄ where
  unfoldable pub has : TypeSet Item → Item → Bool
  has set value = elim (lookup value set) [ none ↦ false | some found ↦ true ]

  unfoldable pub put : TypeSet Item → Item → TypeSet Item
  put set value = insert value tt set

  unfoldable pub discard : TypeSet Item → Item → TypeSet Item
  discard set value = remove value set

  -- The loop of `NewTypeSet`.
  unfoldable pub put_all : TypeSet Item → List Item → TypeSet Item
  unfolding put
  put_all set [] = set
  put_all set (value ∷ values) = put_all (put set value) values

  unfoldable pub new_set : List Item → TypeSet Item
  unfolding put_all
  new_set values = put_all [] values

module _ {ℓ} {Item : Type ℓ} where
  -- The values, in the order of the map.
  unfoldable pub values : TypeSet Item → List Item
  values [] = []
  values ((value, found) ∷ set) = value ∷ values set

  -- `List` behind the lock, for the slice of the length that it has read before; `none` where an
  -- index is out of the slice's range, which panics. What is not filled stays the zero value.
  unfoldable pub list : ℕ → TypeSet Item → Option (List (Option Item))
  unfolding values
  list size set =
      if ltb size (length set)
      then none
      else some (map some (values set) ++ replicate (size - length set) none)
