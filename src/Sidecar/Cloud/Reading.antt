-- ===== src/Sidecar/Cloud/Reading.antt =====
-- What `ReadFile` returns of the chunks in which the output of `cat` arrives.
use snake_runner.Base.{ℕ, Text, List, [], ◌∷◌, ◌++◌, append_assoc, join, ◌≡◌, refl, ◌∙◌}
use snake_runner.Sidecar.Cloud.{read_chunks}

abbrev pub line_end : Text
line_end = 10 ∷ []

-- The chunks from the first one on that is not empty.
abbrev pub from_first : List Text → List Text
from_first [] = []
from_first ([] ∷ chunks) = from_first chunks
from_first ((c ∷ chunk) ∷ chunks) = (c ∷ chunk) ∷ chunks

join_two :
    (a b : Text) (rest : List Text)
    → join line_end ((a ++ (10 ∷ b)) ∷ rest) ≡ join line_end (a ∷ b ∷ rest)
join_two a b [] = refl
join_two a b (c ∷ rest) = append_assoc a (10 ∷ b) (line_end ++ join line_end (c ∷ rest))

read_behind :
    (c : ℕ) (text : Text) (chunks : List Text)
    → read_chunks (c ∷ text) chunks ≡ join line_end ((c ∷ text) ∷ chunks)
unfolding read_chunks
read_behind c text [] = refl
read_behind c text (chunk ∷ chunks) =
    read_behind c (text ++ (10 ∷ chunk)) chunks ∙ join_two (c ∷ text) chunk chunks

-- `ReadFile` returns the chunks of the output with a line feed between each two of them, from the
-- first one on that is not empty: a file that comes in one chunk is returned as it is, and one that
-- comes in more has a line feed more at every seam.
pub read_chunks-join :
    (chunks : List Text) → read_chunks [] chunks ≡ join line_end (from_first chunks)
unfolding read_chunks
read_chunks-join [] = refl
read_chunks-join ([] ∷ chunks) = read_chunks-join chunks
read_chunks-join ((c ∷ chunk) ∷ chunks) = read_behind c chunk chunks
