-- ===== src/MapSlice/Find.antt =====
-- `Find` and `Map` of internal/mapslice on the same pairs.
use snake_runner.Base.{
  ℕ, zero, suc, ◌≤◌, Text, text_beq_iff, List, [], ◌∷◌, ◌++◌, length, Option, none, some, ◌==◌,
  text_eq, lookup, insert, lookup-insert, if◌then◌else◌, ◌≡◌, refl, ap, ◌∙◌, arith,
}
use snake_runner.MapSlice.{Pair, fill, to_map, get_elem?, find_from, find}

-- The last pair with the key.
unfoldable pub last_match : Text → List Pair → Option Pair
last_match key [] = none
last_match key (pair ∷ pairs) = elim (last_match key pairs) [
  | none ↦ if pair.key == key then some pair else none
  | some later ↦ some later
]

last_match-append :
    (key : Text) (pairs : List Pair) (pair : Pair)
    → last_match key (pairs ++ pair ∷ [])
      ≡ (if pair.key == key then some pair else last_match key pairs)
unfolding last_match
last_match-append key [] pair = ground arith
last_match-append key (p ∷ pairs) pair = ground (arith, last_match-append key pairs pair)

abbrev take_pairs : ℕ → List Pair → List Pair
take_pairs zero pairs = []
take_pairs (suc n) [] = []
take_pairs (suc n) (p ∷ pairs) = p ∷ take_pairs n pairs

take_pairs_all : (pairs : List Pair) → take_pairs (length pairs) pairs ≡ pairs
take_pairs_all [] = refl
take_pairs_all (p ∷ pairs) = ap (◌∷◌ p) (take_pairs_all pairs)

take_pairs-suc :
    (n : ℕ) (pairs : List Pair) (pair : Pair)
    → get_elem? pairs n ≡ some pair
    → take_pairs (suc n) pairs ≡ take_pairs n pairs ++ pair ∷ []
take_pairs-suc n [] pair h = absurd (cc)
take_pairs-suc zero (p ∷ pairs) pair h = ground arith
take_pairs-suc (suc n) (p ∷ pairs) pair h = ap (◌∷◌ p) (take_pairs-suc n pairs pair h)

get_elem_within :
    (n : ℕ) (pairs : List Pair)
    → suc n ≤ length pairs
    → (pair : Pair) × (get_elem? pairs n ≡ some pair)
get_elem_within n [] h = absurd (omega arith)
get_elem_within zero (p ∷ pairs) h = (p, refl)
get_elem_within (suc n) (p ∷ pairs) h = get_elem_within n pairs (omega arith)

find_from_lem :
    (i : ℕ) (first : Pair) (pairs : List Pair) (key : Text)
    → i ≤ length pairs
    → find_from (first ∷ pairs) key i ≡ last_match key (take_pairs i pairs)
unfolding find_from last_match
find_from_lem zero first pairs key h = refl
find_from_lem (suc i) first pairs key h =
    let (pair, e) = get_elem_within i pairs (omega arith) in
    ground (
      arith,
      e,
      take_pairs-suc i pairs pair e,
      last_match-append key (take_pairs i pairs) pair,
      find_from_lem i first pairs key (omega arith),
    )

-- `Find` looks up the last pair with the key among all pairs but the first one.
pub find-last_match :
    (first : Pair) (pairs : List Pair) (key : Text)
    → find (first ∷ pairs) key ≡ last_match key pairs
unfolding find
find-last_match first pairs key =
    ap (find_from (first ∷ pairs) key) (omega arith)
    ∙ find_from_lem (length pairs) first pairs key (omega arith)
    ∙ ap (last_match key) (take_pairs_all pairs)

value_or : Option Pair → Option Text → Option Text
value_or none other = other
value_or (some pair) other = some pair.value

lookup-fill :
    (key : Text) (table : List (Text × Text)) (pairs : List Pair)
    → lookup key (fill table pairs) ≡ value_or (last_match key pairs) (lookup key table)
unfolding fill last_match value_or
lookup-fill key table [] = refl
lookup-fill key table (pair ∷ pairs) = ground (
  arith,
  lookup-fill key (insert pair.key pair.value table) pairs,
  lookup-insert pair.key key pair.value table,
)

-- A variable that only the first pair sets is in the map, and `Find` does not find it.
pub find_misses_first :
    (first : Pair) (pairs : List Pair)
    → last_match first.key pairs ≡ none
    → (find (first ∷ pairs) first.key ≡ none)
      × (lookup first.key (to_map (some (first ∷ pairs))) ≡ some first.value)
unfolding to_map
find_misses_first first pairs h = (
  find-last_match first pairs first.key ∙ h,
  lookup-fill first.key [] (first ∷ pairs)
      ∙ unfold last_match value_or in ground (arith, h, text_beq_iff first.key first.key),
)
