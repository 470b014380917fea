-- ===== src/Masker.antt =====
-- internal/masker/masker.go: the writer that hides the values of the secret variables.
-- `sort.Slice` is not stable, so the sort is an argument; `strings.TrimSpace` is modelled on the
-- white space of ASCII. The destination of `Write` is outside; it gets what `mask` returns.
pub mod Replace
pub mod Hides
pub mod Lines
use snake_runner.Base.{
  ℕ, zero, suc, ◌-◌, Text, text_eq, nat_eq, List, [], ◌∷◌, ◌++◌, reverse, length, replicate, Option,
  none, some, Bool, true, false, ◌==◌, nat_beq, ◌||◌, lookup, is_empty, has_prefix, if◌then◌else◌,
}

abbrev pub star : ℕ
star = b'*'

abbrev pub newline : ℕ
newline = 10

abbrev is_space : ℕ → Bool
is_space c =
    nat_beq c 32 || nat_beq c 9 || nat_beq c 10 || nat_beq c 11 || nat_beq c 12 || nat_beq c 13

-- The first line, and the others.
abbrev pub push_line : ℕ → List Text → List Text
push_line c [] = (c ∷ []) ∷ []
push_line c (line ∷ lines) = (c ∷ line) ∷ lines

-- `strings.Split(value, "\n")`
unfoldable pub split_lines : Text → List Text
split_lines [] = [] ∷ []
split_lines (c ∷ s) =
    let lines = split_lines s in if nat_beq c newline then [] ∷ lines else push_line c lines

abbrev pub trim_left : Text → Text
trim_left [] = []
trim_left (c ∷ s) = let rest = trim_left s in if is_space c then rest else c ∷ s

-- `strings.TrimSpace`
unfoldable pub trim_space : Text → Text
trim_space s = reverse (trim_left (reverse (trim_left s)))

-- The inner loop over the lines.
unfoldable pub secret_lines : List Text → List Text
unfolding trim_space
secret_lines [] = []
secret_lines (line ∷ lines) =
    let rest = secret_lines lines in
    if is_empty (trim_space line) then rest else trim_space line ∷ rest

-- The loop over the names of the secret variables.
unfoldable pub collect : List (Text × Text) → List Text → List Text
unfolding secret_lines split_lines
collect env [] = []
collect env (secret ∷ secrets) = elim (lookup secret env) [
  | none ↦ collect env secrets
  | some value ↦ secret_lines (split_lines value) ++ collect env secrets
]

-- The loop removes the first of two equal neighbours, and goes on behind the second.
unfoldable pub unique : List Text → List Text
unique [] = []
unique (x ∷ []) = x ∷ []
unique (x ∷ y ∷ rest) = elim (x == y) [ true ↦ y ∷ unique rest | false ↦ x ∷ unique (y ∷ rest) ]

-- `strings.Replacer` for the pairs (`item`, `len(item)` stars): at each place the first item that
-- stands there is replaced, and the search goes on behind it.
unfoldable pub find_match : List Text → Text → Option Text
find_match [] s = none
find_match (item ∷ items) s = if has_prefix s item then some item else find_match items s

abbrev pub stars : Text → Text
stars item = replicate (length item) star

-- The first `skip` bytes are replaced already.
unfoldable pub replace_from : List Text → ℕ → Text → Text
unfolding find_match
replace_from items skip [] = []
replace_from items (suc skip) (c ∷ s) = replace_from items skip s
replace_from items zero (c ∷ s) = elim (find_match items (c ∷ s)) [
  | none ↦ c ∷ replace_from items zero s
  | some item ↦ stars item ++ replace_from items (length item - 1) s
]

-- The items of the replacer; the writer has none where there are no items.
pub record Writer : Type 0 where
  pub replacer : Option (List Text)

-- The end of `init`.
unfoldable pub writer_of : List Text → Writer
writer_of [] = record { replacer = none }
writer_of (item ∷ items) = record { replacer = some (item ∷ items) }

-- `init`
unfoldable pub new_writer : (List Text → List Text) → List (Text × Text) → List Text → Writer
unfolding collect unique writer_of
new_writer sort env secrets = writer_of (unique (sort (collect env secrets)))

-- `Mask`, and what `Write` passes on.
unfoldable pub mask : Writer → Text → Text
unfolding replace_from
mask w text = elim w.replacer [ none ↦ text | some items ↦ replace_from items zero text ]
