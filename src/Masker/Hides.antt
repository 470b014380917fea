-- ===== src/Masker/Hides.antt =====
-- What the masker of internal/masker leaves of the secrets.
use snake_runner.Base.{
  ℕ, suc, ◌≤◌, Text, text_eq, text_beq, text_beq_iff, List, [], ◌∷◌, length, Option-cases, some,
  false, Bool-cases, ◌==◌, is_empty, lookup, All-append, Any, Any-left, Any-right, if◌then◌else◌,
  ◌≡◌, refl, sym, ap, subst, ◌∙◌, inl, inr, arith,
}
use snake_runner.Masker.{
  trim_space, split_lines, secret_lines, collect, unique, replace_from, writer_of, new_writer, mask,
}
use snake_runner.Masker.Replace.{contains, Items, Starless, length-replace_from, replace_from_hides}

-- How often a text stands in a list.
abbrev pub count : Text → List Text → ℕ
count w [] = 0
count w (x ∷ xs) = if x == w then suc (count w xs) else count w xs

-- What `sort.Slice` promises here: the same items, each as often.
abbrev pub Sorts : (List Text → List Text) → Type 0
Sorts sort = (w : Text) (xs : List Text) → count w (sort xs) ≡ count w xs

abbrev pub In : Text → List Text → Type 0
In w = Any (λ x. x ≡ w)

pub In-of_count : (w : Text) (xs : List Text) → 1 ≤ count w xs → In w xs
In-of_count w [] h = absurd (omega arith)
In-of_count w (x ∷ xs) h = elim (Bool-cases (text_beq x w)) [
  | inl hit ↦ inl ((text_beq_iff x w).0 hit)
  | inr miss ↦ inr (In-of_count w xs (rw miss at h))
]

pub count_of_In : (w : Text) (xs : List Text) → In w xs → 1 ≤ count w xs
count_of_In w [] h = absurd h
count_of_In w (x ∷ xs) (inl e) = rw ((text_beq_iff x w).1 e) (omega arith)
count_of_In w (x ∷ xs) (inr h) = ground (arith, count_of_In w xs h)

Items-of_count : (xs : List Text) → count [] xs ≡ 0 → Items xs
Items-of_count [] h = tt
Items-of_count ([] ∷ xs) h = absurd (omega arith)
Items-of_count ((c ∷ x) ∷ xs) h = (refl, Items-of_count xs h)

count_of_Items : (xs : List Text) → Items xs → count [] xs ≡ 0
count_of_Items [] h = refl
count_of_Items ([] ∷ xs) h = absurd (cc (h.0))
count_of_Items ((c ∷ x) ∷ xs) h = count_of_Items xs h.1

secret_lines-Items : (lines : List Text) → Items (secret_lines lines)
unfolding secret_lines
secret_lines-Items [] = tt
secret_lines-Items (line ∷ lines) = elim (Bool-cases (is_empty (trim_space line))) [
  | inl blank ↦ rw blank (secret_lines-Items lines)
  | inr text ↦ rw text (text, secret_lines-Items lines)
]

secret_lines-In :
    (line : Text) (lines : List Text)
    → In line lines
    → is_empty (trim_space line) ≡ false
    → In (trim_space line) (secret_lines lines)
unfolding secret_lines
secret_lines-In line [] h n = h
secret_lines-In line (l ∷ lines) (inl e) n =
    let here : is_empty (trim_space l) ≡ false = rw e n in rw here (inl (ap trim_space e))
secret_lines-In line (l ∷ lines) (inr h) n = elim (Bool-cases (is_empty (trim_space l))) [
  | inl blank ↦ rw blank (secret_lines-In line lines h n)
  | inr text ↦ rw text (inr (secret_lines-In line lines h n))
]

collect-Items : (env : List (Text × Text)) (secrets : List Text) → Items (collect env secrets)
unfolding collect
collect-Items env [] = tt
collect-Items env (secret ∷ secrets) = elim (Option-cases (lookup secret env)) [
  | inl e ↦ rw (e, collect) (collect-Items env secrets)
  | inr (value, e) ↦
      rw (e, collect)
        (All-append _ (secret_lines (split_lines value)) (collect env secrets)
          (secret_lines-Items (split_lines value)) (collect-Items env secrets))
]

collect-In :
    (env : List (Text × Text)) (secrets : List Text) (secret value line : Text)
    → In secret secrets
    → lookup secret env ≡ some value
    → In line (split_lines value)
    → is_empty (trim_space line) ≡ false
    → In (trim_space line) (collect env secrets)
unfolding collect
collect-In env [] secret value line h e l n = h
collect-In env (s ∷ secrets) secret value line (inl q) e l n =
    let here : lookup s env ≡ some value = rw q e in
    rw (here, collect)
      (Any-left _ (secret_lines (split_lines value)) (collect env secrets)
        (secret_lines-In line (split_lines value) l n))
collect-In env (s ∷ secrets) secret value line (inr h) e l n = elim (Option-cases (lookup s env)) [
  | inl q ↦ rw (q, collect) (collect-In env secrets secret value line h e l n)
  | inr (other, q) ↦
      rw (q, collect)
        (Any-right _ (secret_lines (split_lines other)) (collect env secrets)
          (collect-In env secrets secret value line h e l n))
]

-- `unique` drops no item altogether, and brings none in.
unique-In : (w : Text) (xs : List Text) → In w xs → In w (unique xs)
unfolding unique
unique-In w [] h = h
unique-In w (x ∷ []) h = h
unique-In w (x ∷ y ∷ rest) (inl e) = elim (Bool-cases (text_beq x y)) [
  | inl same ↦ rw (same, unique) (inl (sym ((text_beq_iff x y).0 same) ∙ e))
  | inr other ↦ rw (other, unique) (inl e)
]
unique-In w (x ∷ y ∷ rest) (inr (inl e)) = elim (Bool-cases (text_beq x y)) [
  | inl same ↦ rw (same, unique) (inl e)
  | inr other ↦ rw (other, unique) (inr (unique-In w (y ∷ rest) (inl e)))
]
unique-In w (x ∷ y ∷ rest) (inr (inr h)) = elim (Bool-cases (text_beq x y)) [
  | inl same ↦ rw (same, unique) (inr (unique-In w rest h))
  | inr other ↦ rw (other, unique) (inr (unique-In w (y ∷ rest) (inr h)))
]

unique-Items : (xs : List Text) → Items xs → Items (unique xs)
unfolding unique
unique-Items [] h = tt
unique-Items (x ∷ []) h = h
unique-Items (x ∷ y ∷ rest) h = elim (Bool-cases (text_beq x y)) [
  | inl same ↦ rw (same, unique) (h.1.0, unique-Items rest h.1.1)
  | inr other ↦ rw (other, unique) (h.0, unique-Items (y ∷ rest) h.1)
]

replace_from-nil : (text : Text) → replace_from [] 0 text ≡ text
unfolding replace_from
replace_from-nil [] = refl
replace_from-nil (c ∷ text) = ap (◌∷◌ c) (replace_from-nil text)

pub mask-writer_of :
    (items : List Text) (text : Text) → mask (writer_of items) text ≡ replace_from items 0 text
unfolding mask writer_of
mask-writer_of [] text = sym (replace_from-nil text)
mask-writer_of (item ∷ items) text = refl

module _ (sort : List Text → List Text) (sorts : Sorts sort) (env : List (Text × Text))
    (secrets : List Text) where
  pub Items-of_writer : Items (unique (sort (collect env secrets)))
  Items-of_writer = unique-Items _ (
      Items-of_count _ (
        sorts [] (collect env secrets)
        ∙ count_of_Items (collect env secrets) (collect-Items env secrets)))

  -- A masked text is as long as the text.
  pub length-mask : (text : Text) → length (mask (new_writer sort env secrets) text) ≡ length text
  unfolding new_writer
  length-mask text =
      ap length (mask-writer_of (unique (sort (collect env secrets))) text)
      ∙ length-replace_from _ 0 text Items-of_writer
      ∙ omega arith

  -- A masked text does not contain a line of a secret variable's value, less the white space at the
  -- line's ends, where that has no star in it and is not empty.
  pub mask_hides :
      (secret value line : Text) (c : ℕ) (item text : Text)
      → Any (λ s. s ≡ secret) secrets
      → lookup secret env ≡ some value
      → Any (λ l. l ≡ line) (split_lines value)
      → trim_space line ≡ c ∷ item
      → Starless (c ∷ item)
      → contains (mask (new_writer sort env secrets) text) (c ∷ item) ≡ false
  unfolding new_writer
  mask_hides secret value line c item text known set lines trimmed starless =
      let collected : In (c ∷ item) (collect env secrets) =
        subst (λ t. In t (collect env secrets)) trimmed
          (collect-In env secrets secret value line known set lines (rw trimmed refl)) in
      let sorted : In (c ∷ item) (sort (collect env secrets)) =
        In-of_count _ _ (rw (sorts (c ∷ item) (collect env secrets)) (count_of_In _ _ collected)) in
      ap (λ t. contains t (c ∷ item)) (mask-writer_of (unique (sort (collect env secrets))) text)
      ∙ replace_from_hides _ 0 text c item Items-of_writer (unique-In _ _ sorted) starless
