-- ===== src/Tests/JobLogs.antt =====
-- The masked log of a job, with a line writer that passes on what it has up to the last newline.
use snake_runner.Base.{
  ℕ, Text, text_eq, codes, nat_beq, nat_beq_iff, List, [], ◌∷◌, ◌++◌, append-nil, map, concat, none,
  some, Bool-cases, false, lookup, if◌then◌else◌, ◌≡◌, refl, ap, ◌∙◌, inl, inr, arith,
}
use snake_runner.Masker.{newline, new_writer, mask, split_lines, trim_space}
use snake_runner.Masker.Replace.{contains}
use snake_runner.Masker.Lines.{AreLines}
use snake_runner.Job.Logs.{
  LineWriter, Logs, Entry, logs, prompts, setup_mask_writer, log_all, destroy,
}
use snake_runner.Job.Logs.Whole.{ended, PassesLines, text_of, masked_logs_whole, masked_logs_hide}

-- A byte in front of some lines and the rest behind them.
abbrev add : ℕ → Text × Text → Text × Text
add c ([], rest) = if nat_beq c newline then (c ∷ [], rest) else ([], c ∷ rest)
add c (d ∷ front, rest) = (c ∷ d ∷ front, rest)

abbrev cut : Text → Text × Text
cut [] = ([], [])
cut (c ∷ s) = add c (cut s)

add_lem : (c : ℕ) (p : Text × Text) → (add c p).0 ++ (add c p).1 ≡ c ∷ (p.0 ++ p.1)
add_lem c ([], rest) = ground arith
add_lem c (d ∷ front, rest) = refl

cut_lem : (s : Text) → (cut s).0 ++ (cut s).1 ≡ s
cut_lem [] = refl
cut_lem (c ∷ s) = add_lem c (cut s) ∙ ap (◌∷◌ c) (cut_lem s)

add-AreLines : (c : ℕ) (p : Text × Text) → AreLines p.0 → AreLines (add c p).0
add-AreLines c ([], rest) h = elim (Bool-cases (nat_beq c newline)) [
  | inl e ↦ rw e (inr ([], ap (λ d. d ∷ []) ((nat_beq_iff c newline).0 e)))
  | inr e ↦ rw e (inl refl)
]
add-AreLines c (d ∷ front, rest) (inl e) = absurd (cc (e))
add-AreLines c (d ∷ front, rest) (inr (before, e)) = inr (c ∷ before, ap (◌∷◌ c) e)

cut-AreLines : (s : Text) → AreLines (cut s).0
cut-AreLines [] = inl refl
cut-AreLines (c ∷ s) = add-AreLines c (cut s) (cut-AreLines s)

ended_front : (c : ℕ) (s : Text) → (front : Text) × (ended (c ∷ s) ≡ front ++ newline ∷ [])
unfolding ended
ended_front c [] = elim (Bool-cases (nat_beq c newline)) [
  | inl e ↦ rw e ([], ap (λ d. d ∷ []) ((nat_beq_iff c newline).0 e))
  | inr e ↦ rw e (c ∷ [], refl)
]
ended_front c (d ∷ s) = let (front, e) = ended_front d s in (c ∷ front, ap (◌∷◌ c) e)

ended-AreLines : (s : Text) → AreLines (ended s)
unfolding ended
ended-AreLines [] = inl refl
ended-AreLines (c ∷ s) = inr (ended_front c s)

abbrev lines : LineWriter
lines = record {
  Buffer = Text;
  empty = [];
  write = λ b text. ((cut (b ++ text)).1, (cut (b ++ text)).0 ∷ []);
  close = λ b. ended b ∷ [];
}

laws : PassesLines lines
laws = record {
  pending = λ b. b;
  starts = refl;
  keeps = λ b text. rw append-nil (cut_lem (b ++ text));
  whole = λ b text. (cut-AreLines (b ++ text), tt);
  closes = λ b. append-nil (ended b);
  closes_whole = λ b. (ended-AreLines b, tt);
}

abbrev env : List (Text × Text)
env = (codes "TOKEN", codes "abc ") ∷ []

abbrev same : List Text → List Text
same xs = xs

-- The secret is written in two parts.
abbrev entries : List Entry
entries = prompts (codes "run" ∷ []) ∷ logs (codes "token=a") ∷ logs (codes "bc!") ∷ []

abbrev before : Logs Text
before = record { masked = none; sent = codes "# " }

masked_logs_whole_example :
    (after : Logs Text) × (log_all lines entries
        (setup_mask_writer lines (new_writer same env (codes "TOKEN" ∷ [])) before)
      ≡ some after)
    × (destroy lines after
        ≡ before.sent
          ++ mask (new_writer same env (codes "TOKEN" ∷ [])) (ended (concat (map text_of entries))))
masked_logs_whole_example =
    masked_logs_whole lines laws same (λ w xs. refl) env (codes "TOKEN" ∷ []) entries before

masked_text :
    mask (new_writer same env (codes "TOKEN" ∷ [])) (ended (concat (map text_of entries)))
    ≡ codes "\n$ run\ntoken=***!\n"
unfolding mask new_writer trim_space lookup ended
masked_text = refl

masked_logs_hide_example :
    (after : Logs Text) × (added : Text) × (log_all lines entries
        (setup_mask_writer lines (new_writer same env (codes "TOKEN" ∷ [])) before)
      ≡ some after)
    × (destroy lines after ≡ before.sent ++ added)
    × (contains added (codes "abc") ≡ false)
unfolding split_lines trim_space lookup
masked_logs_hide_example =
    masked_logs_hide lines laws same (λ w xs. refl) env (codes "TOKEN" ∷ []) entries before
      (codes "TOKEN") (codes "abc ") (codes "abc ") b'a' (codes "bc") (inl refl) refl (inl refl)
      refl (refl, (refl, (refl, tt)))
