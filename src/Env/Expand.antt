-- ===== src/Env/Expand.antt =====
-- Go's `os.Expand`: ${name} and $name are replaced by what `mapping` says.
use snake_runner.Base.{
  ℕ, zero, suc, Text, [], ◌∷◌, ◌++◌, Bool, ◌&&◌, ◌||◌, not, leb, nat_beq, is_empty, if◌then◌else◌,
  All, ◌≡◌, ◌≢◌, refl, arith,
}

-- `isShellSpecialVar`: one of *#$@!?- or a digit.
abbrev is_special : ℕ → Bool
is_special c =
    nat_beq c b'*'
    || (nat_beq c b'#'
        || (nat_beq c b'$'
            || (nat_beq c b'@'
                || (nat_beq c b'!'
                    || (nat_beq c b'?' || (nat_beq c b'-' || (leb b'0' c && leb c b'9')))))))

-- `isAlphaNum`
abbrev is_alpha_num : ℕ → Bool
is_alpha_num c =
    nat_beq c b'_'
    || ((leb b'0' c && leb c b'9') || ((leb b'a' c && leb c b'z') || (leb b'A' c && leb c b'Z')))

-- The name in front of a closing brace and how many bytes it takes with the brace; without a
-- brace no name, and none.
abbrev to_brace : Text → Text × ℕ
to_brace [] = ([], 0)
to_brace (c ∷ s) =
    let (name, width) = to_brace s in
    if nat_beq c b'}' then ([], 1) else if nat_beq width 0 then ([], 0) else (c ∷ name, suc width)

abbrev alpha_nums : Text → Text × ℕ
alpha_nums [] = ([], 0)
alpha_nums (c ∷ s) =
    let (name, width) = alpha_nums s in if is_alpha_num c then (c ∷ name, suc width) else ([], 0)

-- `getShellName` behind the opening brace.
abbrev braced_name : Text → Text × ℕ
braced_name (c ∷ d ∷ s) =
    if is_special c && nat_beq d b'}'
    then (c ∷ [], 3)
    else (let (name, width) = to_brace (c ∷ d ∷ s) in (name, suc width))
braced_name s = let (name, width) = to_brace s in (name, suc width)

-- `getShellName`, for a text that is not empty: the name, and how many bytes it takes.
abbrev shell_name : Text → Text × ℕ
shell_name [] = ([], 0)
shell_name (c ∷ s) =
    if nat_beq c b'{'
    then braced_name s
    else if is_special c
    then (c ∷ [], 1)
    else alpha_nums (c ∷ s)

module _ (mapping : Text → Text) where
  -- What takes the place of the dollar and the bytes of a name: a name without a variable in it is
  -- eaten, and a dollar without a name stays.
  abbrev replacement : Text × ℕ → Text
  replacement ([], zero) = b'$' ∷ []
  replacement ([], suc width) = []
  replacement (c ∷ name, width) = mapping (c ∷ name)

  -- The first bytes, so many, are a name that was replaced.
  unfoldable pub expand_from : ℕ → Text → Text
  expand_from skip [] = []
  expand_from (suc skip) (c ∷ s) = expand_from skip s
  expand_from zero (c ∷ s) =
      let plain = expand_from 0 s in
      let behind = expand_from (shell_name s).1 s in
      if nat_beq c b'$' && not (is_empty s) then replacement (shell_name s) ++ behind else c ∷ plain

  unfoldable pub expand : Text → Text
  unfolding expand_from
  expand s = expand_from 0 s

  expand_from_plain : (s : Text) → All (λ c. c ≢ b'$') s → expand_from 0 s ≡ s
  unfolding expand_from
  expand_from_plain [] p = refl
  expand_from_plain (c ∷ s) p = ground (arith, p.0, expand_from_plain s p.1)

  -- A text without a dollar stays as it is.
  pub expand_plain : (s : Text) → All (λ c. c ≢ b'$') s → expand s ≡ s
  unfolding expand
  expand_plain s p = expand_from_plain s p
