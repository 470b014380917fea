-- ===== src/Tests/Secrets.antt =====
-- The masker at a concrete input.
use snake_runner.Base.{Text, codes, List, [], ◌∷◌, lookup, false, ◌≡◌, refl, inl}
use snake_runner.Masker.{split_lines, trim_space, new_writer, mask}
use snake_runner.Masker.Replace.{contains}
use snake_runner.Masker.Hides.{mask_hides}

abbrev env : List (Text × Text)
env = (codes "TOKEN", codes "abc ") ∷ []

-- The list has one item, so any sort leaves it.
abbrev same : List Text → List Text
same xs = xs

masked : mask (new_writer same env (codes "TOKEN" ∷ [])) (codes "token=abc!") ≡ codes "token=***!"
unfolding mask new_writer trim_space lookup
masked = refl

mask_hides_example :
    contains (mask (new_writer same env (codes "TOKEN" ∷ [])) (codes "token=abc!")) (codes "abc")
    ≡ false
unfolding split_lines trim_space lookup
mask_hides_example =
    mask_hides same (λ w xs. refl) env (codes "TOKEN" ∷ []) (codes "TOKEN") (codes "abc ")
      (codes "abc ") b'a' (codes "bc") (codes "token=abc!") (inl refl) refl (inl refl) refl
      (refl, (refl, (refl, tt)))
