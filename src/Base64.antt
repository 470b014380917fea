-- ===== src/Base64.antt =====
-- Go's `base64.URLEncoding`: `EncodeToString` and `DecodeString`.
pub mod Back
use snake_runner.Base.{
  ℕ, zero, suc, ◌+◌, ◌-◌, ◌*◌, ◌/◌, ◌%◌, Text, List, [], ◌∷◌, Option, none, some, Bool, true, false,
  not, ◌||◌, nat_beq, ltb, leb, ◌&&◌, keep, if◌then◌else◌,
}

-- The alphabet: A-Z, a-z, 0-9, - and _.
unfoldable pub char_of : ℕ → ℕ
char_of n =
    if ltb n 26
    then b'A' + n
    else if ltb n 52
    then b'a' + (n - 26)
    else if ltb n 62
    then b'0' + (n - 52)
    else if nat_beq n 62
    then b'-'
    else b'_'

unfoldable pub value_of : ℕ → Option ℕ
value_of c =
    if leb b'A' c && leb c b'Z'
    then some (c - b'A')
    else if leb b'a' c && leb c b'z'
    then some (c - b'a' + 26)
    else if leb b'0' c && leb c b'9'
    then some (c - b'0' + 52)
    else if nat_beq c b'-'
    then some 62
    else if nat_beq c b'_'
    then some 63
    else none

abbrev pub pad : ℕ
pad = b'='

unfoldable pub encode : Text → Text
unfolding char_of
encode [] = []
encode (a ∷ []) = char_of (a / 4) ∷ char_of (a % 4 * 16) ∷ pad ∷ pad ∷ []
encode (a ∷ b ∷ []) =
    char_of (a / 4) ∷ char_of (a % 4 * 16 + b / 16) ∷ char_of (b % 16 * 4) ∷ pad ∷ []
encode (a ∷ b ∷ c ∷ s) =
    char_of (a / 4)
    ∷ char_of (a % 4 * 16 + b / 16)
    ∷ char_of (b % 16 * 4 + c / 64)
    ∷ char_of (c % 64)
    ∷ encode s

abbrev pub first_byte : ℕ → ℕ → ℕ
first_byte a b = a * 4 + b / 16

abbrev pub second_byte : ℕ → ℕ → ℕ
second_byte b c = b % 16 * 16 + c / 4

abbrev pub third_byte : ℕ → ℕ → ℕ
third_byte c d = c % 4 * 64 + d

-- A group with two pads, with one, and with none; what is behind is decoded already.
unfoldable pub one_byte : Option ℕ → Option ℕ → Option Text
one_byte (some a) (some b) = some (first_byte a b ∷ [])
one_byte _ _ = none

unfoldable pub two_bytes : Option ℕ → Option ℕ → Option ℕ → Option Text
two_bytes (some a) (some b) (some c) = some (first_byte a b ∷ second_byte b c ∷ [])
two_bytes _ _ _ = none

unfoldable pub three_bytes : Option ℕ → Option ℕ → Option ℕ → Option ℕ → Option Text → Option Text
three_bytes (some a) (some b) (some c) (some d) (some rest) =
    some (first_byte a b ∷ second_byte b c ∷ third_byte c d ∷ rest)
three_bytes _ _ _ _ _ = none

abbrev is_nil : Text → Bool
is_nil [] = true
is_nil (c ∷ s) = false

-- The decoder behind the line ends; pads stand at the end only.
unfoldable pub decode_groups : Text → Option Text
unfolding value_of one_byte two_bytes three_bytes
decode_groups [] = some []
decode_groups (a ∷ b ∷ c ∷ d ∷ rest) =
    let behind = decode_groups rest in
    if nat_beq d pad
    then if not (is_nil rest)
      then none
      else if nat_beq c pad
      then one_byte (value_of a) (value_of b)
      else two_bytes (value_of a) (value_of b) (value_of c)
    else three_bytes (value_of a) (value_of b) (value_of c) (value_of d) behind
decode_groups _ = none

abbrev pub is_inside : ℕ → Bool
is_inside c = not (nat_beq c 10 || nat_beq c 13)

-- `DecodeString` skips the line ends.
unfoldable pub decode : Text → Option Text
unfolding decode_groups
decode s = decode_groups (keep is_inside s)
