-- ===== src/Base64/Back.antt =====
-- What is encoded is decoded.
use snake_runner.Base.{
  ℕ, ◌+◌, ◌*◌, ◌/◌, ◌%◌, ◌<◌, Text, [], ◌∷◌, some, true, false, nat_beq, keep, All, ◌≡◌, refl, ap,
  ◌∙◌, arith,
}
use snake_runner.Base64.{
  char_of, value_of, pad, encode, first_byte, second_byte, third_byte, one_byte, two_bytes,
  three_bytes, decode_groups, is_inside, decode,
}

value-char : (n : ℕ) → n < 64 → value_of (char_of n) ≡ some n
unfolding value_of char_of
value-char n h = ground arith

char_inside : (n : ℕ) → n < 64 → (is_inside (char_of n) ≡ true) × (nat_beq (char_of n) pad ≡ false)
unfolding char_of
char_inside n h = ground arith

abbrev pub Bytes : Text → Type 0
Bytes = All (λ c. c < 256)

keep_char :
    (n : ℕ) (s : Text) → n < 64 → keep is_inside (char_of n ∷ s) ≡ char_of n ∷ keep is_inside s
keep_char n s h = rw (char_inside n h).0 refl

keep-encode : (s : Text) → Bytes s → keep is_inside (encode s) ≡ encode s
unfolding encode
keep-encode [] h = refl
keep-encode (a ∷ []) h =
    rw ((char_inside (a / 4) (omega (arith, h))).0, (char_inside (a % 4 * 16) (omega (arith, h))).0)
      refl
keep-encode (a ∷ b ∷ []) h =
    rw
      (
        (char_inside (a / 4) (omega (arith, h))).0,
        (char_inside (a % 4 * 16 + b / 16) (omega (arith, h))).0,
        (char_inside (b % 16 * 4) (omega (arith, h))).0,
      )
      refl
keep-encode (a ∷ b ∷ c ∷ s) h =
    rw
      (
        (char_inside (a / 4) (omega (arith, h))).0,
        (char_inside (a % 4 * 16 + b / 16) (omega (arith, h))).0,
        (char_inside (b % 16 * 4 + c / 64) (omega (arith, h))).0,
        (char_inside (c % 64) (omega (arith, h))).0,
        keep-encode s h.1.1.1,
      )
      refl

Bytes-two :
    (a b : ℕ)
    → Bytes (a ∷ b ∷ [])
    → some (
        first_byte (a / 4) (a % 4 * 16 + b / 16)
        ∷ second_byte (a % 4 * 16 + b / 16) (b % 16 * 4)
        ∷ [])
      ≡ some (a ∷ b ∷ [])
Bytes-two a b h =
    let one : first_byte (a / 4) (a % 4 * 16 + b / 16) ≡ a = omega (arith, h) in
    let two : second_byte (a % 4 * 16 + b / 16) (b % 16 * 4) ≡ b = omega (arith, h) in
    rw (one, two) refl

Bytes-three :
    (a b c : ℕ) (s : Text)
    → Bytes (a ∷ b ∷ c ∷ s)
    → some (
        first_byte (a / 4) (a % 4 * 16 + b / 16)
        ∷ second_byte (a % 4 * 16 + b / 16) (b % 16 * 4 + c / 64)
        ∷ third_byte (b % 16 * 4 + c / 64) (c % 64)
        ∷ s)
      ≡ some (a ∷ b ∷ c ∷ s)
Bytes-three a b c s h =
    let one : first_byte (a / 4) (a % 4 * 16 + b / 16) ≡ a = omega (arith, h) in
    let two : second_byte (a % 4 * 16 + b / 16) (b % 16 * 4 + c / 64) ≡ b = omega (arith, h) in
    let three : third_byte (b % 16 * 4 + c / 64) (c % 64) ≡ c = omega (arith, h) in
    rw (one, two, three) refl

decode_groups-encode : (s : Text) → Bytes s → decode_groups (encode s) ≡ some s
unfolding decode_groups encode one_byte two_bytes three_bytes
decode_groups-encode [] h = refl
decode_groups-encode (a ∷ []) h =
    rw (value-char (a / 4) (omega (arith, h)), value-char (a % 4 * 16) (omega (arith, h)))
      (ap some (ap (λ x. x ∷ []) (omega (arith, h))))
decode_groups-encode (a ∷ b ∷ []) h =
    rw
      (
        (char_inside (b % 16 * 4) (omega (arith, h))).1,
        value-char (a / 4) (omega (arith, h)),
        value-char (a % 4 * 16 + b / 16) (omega (arith, h)),
        value-char (b % 16 * 4) (omega (arith, h)),
      )
      (Bytes-two a b h)
decode_groups-encode (a ∷ b ∷ c ∷ s) h =
    rw
      (
        (char_inside (c % 64) (omega (arith, h))).1,
        value-char (a / 4) (omega (arith, h)),
        value-char (a % 4 * 16 + b / 16) (omega (arith, h)),
        value-char (b % 16 * 4 + c / 64) (omega (arith, h)),
        value-char (c % 64) (omega (arith, h)),
        decode_groups-encode s h.1.1.1,
      )
      (Bytes-three a b c s h)

-- The decoder gives back what was encoded.
pub decode-encode : (s : Text) → Bytes s → decode (encode s) ≡ some s
unfolding decode
decode-encode s h = ap decode_groups (keep-encode s h) ∙ decode_groups-encode s h
