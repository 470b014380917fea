-- ===== src/Base/Paths.antt =====
-- `Join` and `Clean` of path/filepath, where the separator is a slash.
use Prim.Native.Nat.{ℕ}
use mathlib.Core.Bool.{Bool, true, false}
use mathlib.Core.List.{List, [], ◌∷◌, ◌++◌, reverse}
use mathlib.Core.Path.{◌≡◌, refl}
use snake_runner.Base.Tests.{nat_beq, nat_beq_iff, if◌then◌else◌}
use snake_runner.Base.Lists.{All}
use snake_runner.Base.Bytes.{Text, codes, text_beq, is_empty, join}

-- `strings.Split` at a byte: the first part, and the others.
abbrev pub split_on : ℕ → Text → Text × List Text
split_on sep [] = ([], [])
split_on sep (c ∷ s) =
    let (part, parts) = split_on sep s in
    if nat_beq c sep then ([], part ∷ parts) else (c ∷ part, parts)

beq_self : (n : ℕ) → nat_beq n n ≡ true
beq_self n = (nat_beq_iff n n).1 refl

-- The separator does not stand in the text.
abbrev pub IsPlain : ℕ → Text → Type 0
IsPlain sep = All (λ c. nat_beq c sep ≡ false)

pub split_on-last : (sep : ℕ) (s : Text) → IsPlain sep s → split_on sep s ≡ (s, [])
split_on-last sep [] h = refl
split_on-last sep (c ∷ s) h = rw (split_on-last sep s h.1, h.0) refl

pub split_on-first :
    (sep : ℕ) (s rest : Text)
    → IsPlain sep s
    → split_on sep (s ++ (sep ∷ rest)) ≡ (s, (split_on sep rest).0 ∷ (split_on sep rest).1)
split_on-first sep [] rest h = rw (beq_self sep) refl
split_on-first sep (c ∷ s) rest h = rw (split_on-first sep s rest h.1, h.0) refl

-- `..` drops the last element that is kept; at the root there is nothing above.
abbrev parent : Bool → List Text → List Text
parent true [] = []
parent false [] = codes ".." ∷ []
parent rooted (last ∷ kept) = if text_beq last (codes "..") then codes ".." ∷ last ∷ kept else kept

-- The elements that are kept, the last one first.
abbrev clean_parts : Bool → List Text → List Text → List Text
clean_parts rooted kept [] = kept
clean_parts rooted kept (part ∷ parts) =
    clean_parts rooted
      (if is_empty part
        then kept
        else if text_beq part (codes ".")
        then kept
        else if text_beq part (codes "..")
        then parent rooted kept
        else part ∷ kept)
      parts

abbrev finish : Bool → Text → Text
finish true body = b'/' ∷ body
finish false [] = codes "."
finish false (c ∷ body) = c ∷ body

abbrev pub is_abs : Text → Bool
is_abs [] = false
is_abs (c ∷ path) = nat_beq c b'/'

-- `filepath.Clean`
unfoldable pub clean : Text → Text
clean path =
    let (part, parts) = split_on b'/' path in
    finish (is_abs path) (join (codes "/") (reverse (clean_parts (is_abs path) [] (part ∷ parts))))

-- `filepath.Join`
unfoldable pub join_path : List Text → Text
unfolding clean
join_path [] = []
join_path ([] ∷ elements) = join_path elements
join_path ((c ∷ s) ∷ elements) = clean (join (codes "/") ((c ∷ s) ∷ elements))
