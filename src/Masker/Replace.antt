-- ===== src/Masker/Replace.antt =====
-- What the replacer leaves of a text.
use snake_runner.Base.{
  ℕ, zero, suc, ◌-◌, ◌≤◌, Text, List, [], ◌∷◌, ◌++◌, length, length-append, replicate,
  length-replicate, Option-cases, none, some, Bool, true, false, Bool-cases, nat_beq, ◌||◌,
  is_empty, has_prefix, All, Any, ◌≡◌, refl, subst, ◌∙◌, inl, inr, arith,
}
use snake_runner.Masker.{star, find_match, stars, replace_from}

-- `strings.Contains`
abbrev pub contains : Text → Text → Bool
contains [] item = has_prefix [] item
contains (c ∷ s) item = has_prefix (c ∷ s) item || contains s item

abbrev pub Items : List Text → Type 0
Items = All (λ item. is_empty item ≡ false)

-- An item with no star in it.
abbrev pub Starless : Text → Type 0
Starless = All (λ c. nat_beq c star ≡ false)

pub has_prefix-length : (s item : Text) → has_prefix s item ≡ true → length item ≤ length s
has_prefix-length s [] h = omega arith
has_prefix-length [] (c ∷ item) h = absurd (cc)
has_prefix-length (d ∷ s) (c ∷ item) h = omega (arith, has_prefix-length s item (ground arith))

-- The item that is found is not empty, and stands at the place.
pub find_match-some :
    (items : List Text) (s item : Text)
    → Items items
    → find_match items s ≡ some item
    → (has_prefix s item ≡ true) × (is_empty item ≡ false)
unfolding find_match
find_match-some [] s item h e = absurd (cc)
find_match-some (other ∷ items) s item h e = elim (Bool-cases (has_prefix s other)) [
  | inl hit ↦
      let same : other ≡ item = ground arith in
      (subst (λ t. has_prefix s t ≡ true) same hit, subst (λ t. is_empty t ≡ false) same h.0)
  | inr miss ↦ find_match-some items s item h.1 (rw miss at e)
]

find_match-none :
    (items : List Text) (s item : Text)
    → Any (λ other. other ≡ item) items
    → find_match items s ≡ none
    → has_prefix s item ≡ false
unfolding find_match
find_match-none [] s item m e = absurd m
find_match-none (other ∷ items) s item (inl m) e =
    subst (λ t. has_prefix s t ≡ false) m (ground arith)
find_match-none (other ∷ items) s item (inr m) e = find_match-none items s item m (ground arith)

length-positive : (item : Text) → is_empty item ≡ false → 1 ≤ length item
length-positive [] h = absurd (cc)
length-positive (c ∷ item) h = omega arith

-- The text keeps its length.
pub length-replace_from :
    (items : List Text) (skip : ℕ) (s : Text)
    → Items items
    → length (replace_from items skip s) ≡ length s - skip
unfolding replace_from
length-replace_from items skip [] h = omega arith
length-replace_from items (suc skip) (c ∷ s) h = omega (arith, length-replace_from items skip s h)
length-replace_from items zero (c ∷ s) h = elim (Option-cases (find_match items (c ∷ s))) [
  | inl none_here ↦ rw (none_here, replace_from) (omega (arith, length-replace_from items zero s h))
  | inr (item, found) ↦
      let facts = find_match-some items (c ∷ s) item h found in
      rw (found, replace_from)
        (omega (
          arith,
          length-append (stars item) (replace_from items (length item - 1) s),
          length-replicate (length item) star,
          length-replace_from items (length item - 1) s h,
          has_prefix-length (c ∷ s) item facts.0,
          length-positive item facts.1,
        ))
]

-- What starts with a star starts with no starless item.
stars_hide :
    (n : ℕ) (rest : Text) (c : ℕ) (item : Text)
    → nat_beq c star ≡ false
    → contains (replicate n star ++ rest) (c ∷ item) ≡ contains rest (c ∷ item)
stars_hide zero rest c item h = refl
stars_hide (suc n) rest c item h = ground (arith, stars_hide n rest c item h)

stars_no_prefix :
    (old rest : Text) (c : ℕ) (item : Text)
    → is_empty old ≡ false
    → nat_beq c star ≡ false
    → has_prefix (stars old ++ rest) (c ∷ item) ≡ false
stars_no_prefix [] rest c item h k = absurd (cc)
stars_no_prefix (o ∷ old) rest c item h k = ground arith

-- A starless item that stands at the front of the result stood at the front of the text.
prefix_back :
    (items : List Text) (s item : Text)
    → Items items
    → Starless item
    → has_prefix (replace_from items zero s) item ≡ true
    → has_prefix s item ≡ true
unfolding replace_from
prefix_back items [] [] h k p = refl
prefix_back items (d ∷ s) [] h k p = refl
prefix_back items [] (c ∷ item) h k p = p
prefix_back items (d ∷ s) (c ∷ item) h k p = elim (Option-cases (find_match items (d ∷ s))) [
  | inl none_here ↦
      let copied : has_prefix (d ∷ replace_from items zero s) (c ∷ item) ≡ true =
        rw (none_here, replace_from) at p in
      ground (arith, prefix_back items s item h k.1)
  | inr (old, found) ↦
      let facts = find_match-some items (d ∷ s) old h found in
      let masked : has_prefix (stars old ++ replace_from items (length old - 1) s) (c ∷ item)
          ≡ true =
        rw (found, replace_from) at p in
      absurd (
        cc (masked, stars_no_prefix old (replace_from items (length old - 1) s) c item facts.1 k.0))
]

-- No starless item of the replacer is left in the result.
pub replace_from_hides :
    (items : List Text) (skip : ℕ) (s : Text) (c : ℕ) (item : Text)
    → Items items
    → Any (λ other. other ≡ c ∷ item) items
    → Starless (c ∷ item)
    → contains (replace_from items skip s) (c ∷ item) ≡ false
unfolding replace_from
replace_from_hides items skip [] c item h m k = refl
replace_from_hides items (suc skip) (d ∷ s) c item h m k =
    replace_from_hides items skip s c item h m k
replace_from_hides items zero (d ∷ s) c item h m k =
    elim (Option-cases (find_match items (d ∷ s))) [
      | inl none_here ↦
          let absent = find_match-none items (d ∷ s) (c ∷ item) m none_here in
          let rest = replace_from_hides items zero s c item h m k in
          rw (none_here, replace_from)
            (ground (arith, rest, absent, prefix_back items s item h k.1))
      | inr (old, found) ↦
          rw (found, replace_from)
            (stars_hide (length old) (replace_from items (length old - 1) s) c item k.0
              ∙ replace_from_hides items (length old - 1) s c item h m k)
    ]
