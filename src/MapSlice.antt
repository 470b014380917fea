-- ===== src/MapSlice.antt =====
-- internal/mapslice/mapslice.go: the variables of a pipeline or a job, in the order of the file.
-- A nil `*MapSlice` is `none`. gopkg.in/yaml.v3 is outside: a node is what its `Node` struct holds.
pub mod Find
pub mod Nodes
use snake_runner.Base.{
  ℕ, zero, suc, ◌-◌, Text, codes, text_eq, List, [], ◌∷◌, map, length, Option, none, some, Bool,
  true, false, ◌==◌, lookup, insert, if◌then◌else◌,
}

pub record Pair : Type 0 where
  pub key : Text
  pub value : Text

-- `FromPairs`; an odd number of arguments panics in Go, and is `none`.
unfoldable pub from_pairs : List Text → Option (List Pair)
from_pairs [] = some []
from_pairs (key ∷ []) = none
from_pairs (key ∷ value ∷ rest) = elim (from_pairs rest) [
  | none ↦ none
  | some pairs ↦ some (record { key = key; value = value } ∷ pairs)
]

-- `Pairs`
unfoldable pub pairs_of : Option (List Pair) → List Pair
pairs_of none = []
pairs_of (some pairs) = pairs

-- The loop of `Map`.
unfoldable pub fill : List (Text × Text) → List Pair → List (Text × Text)
fill table [] = table
fill table (pair ∷ pairs) = fill (insert pair.key pair.value table) pairs

-- `Map`
unfoldable pub to_map : Option (List Pair) → List (Text × Text)
unfolding fill
to_map none = []
to_map (some pairs) = fill [] pairs

abbrev pub get_elem? {ℓ} : {A : Type ℓ} → List A → ℕ → Option A
get_elem? [] i = none
get_elem? (x ∷ xs) zero = some x
get_elem? (x ∷ xs) (suc i) = get_elem? xs i

-- The loop of `Find` from the index `i` down, while `i > 0`. An index in the slice has an element.
unfoldable pub find_from : List Pair → Text → ℕ → Option Pair
find_from pairs key zero = none
find_from pairs key (suc i) =
    let rest = find_from pairs key i in
    elim (get_elem? pairs (suc i)) [
      | none ↦ none
      | some pair ↦ if pair.key == key then some pair else rest
    ]

-- `Find`
unfoldable pub find : List Pair → Text → Option Pair
unfolding find_from
find pairs key = find_from pairs key (length pairs - 1)
