-- ===== src/Masker/Lines.antt =====
-- The masker goes through a text line by line: no item reaches over a line's end.
use snake_runner.Base.{
  ℕ, zero, suc, ◌-◌, ◌≤◌, Text, text_eq, text_beq, List, [], ◌∷◌, ◌++◌, append_assoc, reverse,
  reverse_aux, map, concat, length, Option-cases, All-append, none, false, Bool-cases, nat_beq,
  is_empty, has_prefix, lookup, All, ◌≡◌, refl, sym, ap, subst, ◌∙◌, ◌⊎◌, inl, inr, arith,
}
use snake_runner.Masker.{
  newline, trim_left, trim_space, push_line, split_lines, secret_lines, collect, unique, find_match,
  stars, replace_from, new_writer, mask,
}
use snake_runner.Masker.Replace.{Items, has_prefix-length, find_match-some}
use snake_runner.Masker.Hides.{Sorts, In, In-of_count, count_of_In, Items-of_writer, mask-writer_of}

-- A text without an end of a line.
abbrev pub IsLine : Text → Type 0
IsLine = All (λ c. nat_beq c newline ≡ false)

push_line-IsLine :
    (c : ℕ) (lines : List Text)
    → nat_beq c newline ≡ false
    → All IsLine lines
    → All IsLine (push_line c lines)
push_line-IsLine c [] h k = ((h, tt), tt)
push_line-IsLine c (line ∷ lines) h k = ((h, k.0), k.1)

split_lines-IsLine : (s : Text) → All IsLine (split_lines s)
unfolding split_lines
split_lines-IsLine [] = (tt, tt)
split_lines-IsLine (c ∷ s) = elim (Bool-cases (nat_beq c newline)) [
  | inl e ↦ rw e (tt, split_lines-IsLine s)
  | inr e ↦ rw e (push_line-IsLine c (split_lines s) e (split_lines-IsLine s))
]

trim_left-IsLine : (s : Text) → IsLine s → IsLine (trim_left s)
trim_left-IsLine [] h = h
trim_left-IsLine (c ∷ s) h = ground (arith, trim_left-IsLine s h.1)

reverse_aux-IsLine : (s back : Text) → IsLine s → IsLine back → IsLine (reverse_aux s back)
reverse_aux-IsLine [] back h k = k
reverse_aux-IsLine (c ∷ s) back h k = reverse_aux-IsLine s (c ∷ back) h.1 (h.0, k)

trim_space-IsLine : (s : Text) → IsLine s → IsLine (trim_space s)
unfolding trim_space
trim_space-IsLine s h =
    let there = reverse_aux-IsLine (trim_left s) [] (trim_left-IsLine s h) tt in
    reverse_aux-IsLine (trim_left (reverse (trim_left s))) []
      (trim_left-IsLine (reverse (trim_left s)) there) tt

secret_lines-IsLine : (lines : List Text) → All IsLine lines → All IsLine (secret_lines lines)
unfolding secret_lines
secret_lines-IsLine [] h = h
secret_lines-IsLine (line ∷ lines) h = elim (Bool-cases (is_empty (trim_space line))) [
  | inl e ↦ rw e (secret_lines-IsLine lines h.1)
  | inr e ↦ rw e (trim_space-IsLine line h.0, secret_lines-IsLine lines h.1)
]

collect-IsLine : (env : List (Text × Text)) (secrets : List Text) → All IsLine (collect env secrets)
unfolding collect
collect-IsLine env [] = tt
collect-IsLine env (secret ∷ secrets) = elim (Option-cases (lookup secret env)) [
  | inl e ↦ rw (e, collect) (collect-IsLine env secrets)
  | inr (value, e) ↦
      rw (e, collect)
        (All-append IsLine (secret_lines (split_lines value)) (collect env secrets)
          (secret_lines-IsLine (split_lines value) (split_lines-IsLine value))
          (collect-IsLine env secrets))
]

All-In : (w : Text) (items : List Text) → All IsLine items → In w items → IsLine w
All-In w [] h m = absurd m
All-In w (x ∷ items) h (inl e) = subst IsLine e h.0
All-In w (x ∷ items) h (inr m) = All-In w items h.1 m

In-of_all : (items : List Text) → ((w : Text) → In w items → IsLine w) → All IsLine items
In-of_all [] h = tt
In-of_all (x ∷ items) h = (h x (inl refl), In-of_all items (λ w m. h w (inr m)))

unique-IsLine : (items : List Text) → All IsLine items → All IsLine (unique items)
unfolding unique
unique-IsLine [] h = h
unique-IsLine (x ∷ []) h = h
unique-IsLine (x ∷ y ∷ rest) h = elim (Bool-cases (text_beq x y)) [
  | inl same ↦ rw (same, unique) (h.1.0, unique-IsLine rest h.1.1)
  | inr other ↦ rw (other, unique) (h.0, unique-IsLine (y ∷ rest) h.1)
]

-- Whether an item stands at a place is decided by what stands in front of the line's end.
has_prefix-line :
    (s t item : Text) → IsLine item → has_prefix (s ++ newline ∷ t) item ≡ has_prefix s item
has_prefix-line s t [] h = refl
has_prefix-line [] t (c ∷ item) h = ground arith
has_prefix-line (d ∷ s) t (c ∷ item) h = ground (arith, has_prefix-line s t item h.1)

find_match-line :
    (items : List Text) (s t : Text)
    → All IsLine items
    → find_match items (s ++ newline ∷ t) ≡ find_match items s
unfolding find_match
find_match-line [] s t h = refl
find_match-line (item ∷ items) s t h =
    rw (has_prefix-line s t item h.0, find_match-line items s t h.1) refl

find_match-end : (items : List Text) → Items items → find_match items [] ≡ none
unfolding find_match
find_match-end [] h = refl
find_match-end ([] ∷ items) h = absurd (cc (h.0))
find_match-end ((c ∷ item) ∷ items) h = find_match-end items h.1

replace_from-line :
    (items : List Text) (skip : ℕ) (s t : Text)
    → Items items
    → All IsLine items
    → skip ≤ length s
    → replace_from items skip (s ++ newline ∷ t)
      ≡ replace_from items skip s ++ newline ∷ replace_from items 0 t
unfolding replace_from
replace_from-line items (suc skip) [] t h k l = absurd (omega arith)
replace_from-line items zero [] t h k l =
    rw (find_match-line items [] t k ∙ find_match-end items h, replace_from) refl
replace_from-line items (suc skip) (c ∷ s) t h k l =
    replace_from-line items skip s t h k (omega arith)
replace_from-line items zero (c ∷ s) t h k l = elim (Option-cases (find_match items (c ∷ s))) [
  | inl e ↦
      rw (find_match-line items (c ∷ s) t k ∙ e, e, replace_from)
        (ap (◌∷◌ c) (replace_from-line items zero s t h k (omega arith)))
  | inr (item, e) ↦
      let facts = find_match-some items (c ∷ s) item h e in
      let fits : length item - 1 ≤ length s =
        omega (arith, has_prefix-length (c ∷ s) item facts.0) in
      rw (find_match-line items (c ∷ s) t k ∙ e, e, replace_from)
        (ap (λ rest. stars item ++ rest) (replace_from-line items (length item - 1) s t h k fits)
          ∙ sym (
              append_assoc (stars item) (replace_from items (length item - 1) s)
                (newline ∷ replace_from items 0 t)))
]

-- Nothing, or lines with the end of each.
abbrev pub AreLines : Text → Type 0
AreLines s = (s ≡ []) ⊎ ((front : Text) × (s ≡ front ++ newline ∷ []))

replace_from-append :
    (items : List Text) (lines rest : Text)
    → Items items
    → All IsLine items
    → AreLines lines
    → replace_from items 0 (lines ++ rest) ≡ replace_from items 0 lines ++ replace_from items 0 rest
unfolding replace_from
replace_from-append items lines rest h k (inl e) = rw e refl
replace_from-append items lines rest h k (inr (front, e)) = rw e (
    ap (replace_from items 0) (append_assoc front (newline ∷ []) rest)
    ∙ replace_from-line items 0 front rest h k (omega arith)
    ∙ sym (append_assoc (replace_from items 0 front) (newline ∷ []) (replace_from items 0 rest))
    ∙ ap (λ s. s ++ replace_from items 0 rest)
        (sym (replace_from-line items 0 front [] h k (omega arith))))

module _ (sort : List Text → List Text) (sorts : Sorts sort) (env : List (Text × Text))
    (secrets : List Text) where
  sorted-IsLine : All IsLine (unique (sort (collect env secrets)))
  sorted-IsLine = unique-IsLine (sort (collect env secrets)) (
      In-of_all (sort (collect env secrets)) (λ w m.
        All-In w (collect env secrets) (collect-IsLine env secrets) (
          In-of_count w (collect env secrets) (
            subst (λ n. 1 ≤ n) (sorts w (collect env secrets))
              (count_of_In w (sort (collect env secrets)) m)))))

  -- Lines are masked by themselves: what follows them does not matter to them, nor they to it.
  pub mask-append :
      (lines rest : Text)
      → AreLines lines
      → mask (new_writer sort env secrets) (lines ++ rest)
        ≡ mask (new_writer sort env secrets) lines ++ mask (new_writer sort env secrets) rest
  unfolding new_writer
  mask-append lines rest h =
      let items = unique (sort (collect env secrets)) in
      rw
        (
          mask-writer_of items (lines ++ rest),
          mask-writer_of items lines,
          mask-writer_of items rest,
        )
        (replace_from-append items lines rest (Items-of_writer sort sorts env secrets) sorted-IsLine
          h)

  -- Several lines that are masked one after the other are masked as a whole.
  pub mask-concat :
      (parts : List Text)
      → All AreLines parts
      → concat (map (mask (new_writer sort env secrets)) parts)
        ≡ mask (new_writer sort env secrets) (concat parts)
  unfolding new_writer replace_from
  mask-concat [] h = sym (mask-writer_of (unique (sort (collect env secrets))) [])
  mask-concat (s ∷ parts) h =
      ap (λ t. mask (new_writer sort env secrets) s ++ t) (mask-concat parts h.1)
      ∙ sym (mask-append s (concat parts) h.0)
