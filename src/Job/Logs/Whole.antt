-- ===== src/Job/Logs/Whole.antt =====
-- What of a job's masked log reaches the direct writer: the mask of the whole text.
use snake_runner.Base.{
  ℕ, Text, text_eq, List, [], ◌∷◌, ◌++◌, append-nil, append_assoc, map, concat, All, Any, some,
  false, nat_beq, lookup, if◌then◌else◌, ◌≡◌, refl, sym, ap, subst, ◌∙◌, inl, inr,
}
use snake_runner.Masker.{newline, new_writer, mask, split_lines, trim_space}
use snake_runner.Masker.Replace.{contains, Starless}
use snake_runner.Masker.Hides.{Sorts, mask_hides}
use snake_runner.Masker.Lines.{AreLines, mask-append, mask-concat}
use snake_runner.Job.Logs.{
  LineWriter, Logs, Entry, logs, prompts, reports, prompt, report, setup_mask_writer, write_mask,
  log_entry, log_all, destroy,
}

-- A text with the end of its last line.
unfoldable pub ended : Text → Text
ended [] = []
ended (c ∷ []) = if nat_beq c newline then c ∷ [] else c ∷ newline ∷ []
ended (c ∷ d ∷ s) = c ∷ ended (d ∷ s)

-- The documentation of the line writer: it keeps what it gets, passes on whole lines only, and the
-- rest, with a newline, when it is closed.
pub record PassesLines (lines : LineWriter) : Type 0 where
  pub pending : lines.Buffer → Text
  pub starts : pending lines.empty ≡ []
  pub keeps :
      (b : lines.Buffer) (text : Text)
      → concat (lines.write b text).1 ++ pending (lines.write b text).0 ≡ pending b ++ text
  pub whole : (b : lines.Buffer) (text : Text) → All AreLines (lines.write b text).1
  pub closes : (b : lines.Buffer) → concat (lines.close b) ≡ ended (pending b)
  pub closes_whole : (b : lines.Buffer) → All AreLines (lines.close b)

abbrev pub text_of : Entry → Text
text_of (logs text) = text
text_of (prompts cmd) = prompt cmd
text_of (reports text) = report text

ended-append : (s t : Text) (c : ℕ) → ended (s ++ c ∷ t) ≡ s ++ ended (c ∷ t)
unfolding ended
ended-append [] t c = refl
ended-append (a ∷ []) t c = refl
ended-append (a ∷ b ∷ s) t c = ap (◌∷◌ a) (ended-append (b ∷ s) t c)

AreLines-ended : (s : Text) → AreLines s → ended s ≡ s
unfolding ended
AreLines-ended s (inl e) = rw e refl
AreLines-ended s (inr (front, e)) = rw e (ended-append front [] newline)

-- The end of lines is the end of what follows them.
lines-ended : (s t : Text) → AreLines s → ended (s ++ t) ≡ s ++ ended t
unfolding ended
lines-ended s [] h = rw append-nil (AreLines-ended s h)
lines-ended s (c ∷ t) h = ended-append s t c

AreLines-append : (s t : Text) → AreLines s → AreLines t → AreLines (s ++ t)
AreLines-append s t h (inl e) = rw (e, append-nil) h
AreLines-append s t h (inr (front, e)) =
    inr (s ++ front, rw e (sym (append_assoc s front (newline ∷ []))))

concat-AreLines : (parts : List Text) → All AreLines parts → AreLines (concat parts)
concat-AreLines [] h = inl refl
concat-AreLines (s ∷ parts) h = AreLines-append s (concat parts) h.0 (concat-AreLines parts h.1)

module _ (lines : LineWriter) (laws : PassesLines lines) (sort : List Text → List Text)
    (sorts : Sorts sort) (env : List (Text × Text)) (secrets : List Text) where
  -- What was written is what was passed on, masked, and what waits.
  record Holds (before written : Text) (l : Logs lines.Buffer) : Type 0 where
    pub passed : Text
    pub buffer : lines.Buffer
    pub is_set : l.masked ≡ some (new_writer sort env secrets, buffer)
    pub sends : l.sent ≡ before ++ mask (new_writer sort env secrets) passed
    pub by_lines : AreLines passed
    pub all : passed ++ laws.pending buffer ≡ written

  passes_on :
      (sent before passed : Text) (parts : List Text)
      → sent ≡ before ++ mask (new_writer sort env secrets) passed
      → AreLines passed
      → All AreLines parts
      → sent ++ concat (map (mask (new_writer sort env secrets)) parts)
        ≡ before ++ mask (new_writer sort env secrets) (passed ++ concat parts)
  passes_on sent before passed parts e h k =
      let writer = new_writer sort env secrets in
      ap (λ t. t ++ concat (map (mask writer) parts)) e
      ∙ append_assoc before (mask writer passed) (concat (map (mask writer) parts))
      ∙ ap (λ t. before ++ (mask writer passed ++ t)) (mask-concat sort sorts env secrets parts k)
      ∙ ap (λ t. before ++ t) (sym (mask-append sort sorts env secrets passed (concat parts) h))

  write_mask-Holds :
      (before written text : Text) (l : Logs lines.Buffer)
      → Holds before written l
      → (l' : Logs lines.Buffer) × (write_mask lines text l ≡ some l')
        × Holds before (written ++ text) l'
  unfolding write_mask
  write_mask-Holds before written text l h =
      let step = lines.write h.buffer text in
      let l' : Logs lines.Buffer = record {
        masked = some (new_writer sort env secrets, step.0);
        sent = l.sent ++ concat (map (mask (new_writer sort env secrets)) step.1);
      } in
      (
        l',
        rw (h.is_set, write_mask) refl,
        record {
          passed = h.passed ++ concat step.1;
          buffer = step.0;
          is_set = refl;
          sends =
              passes_on l.sent before h.passed step.1 h.sends h.by_lines (laws.whole h.buffer text);
          by_lines =
              AreLines-append h.passed (concat step.1) h.by_lines
                (concat-AreLines step.1 (laws.whole h.buffer text));
          all =
              append_assoc h.passed (concat step.1) (laws.pending step.0)
              ∙ ap (λ t. h.passed ++ t) (laws.keeps h.buffer text)
              ∙ sym (append_assoc h.passed (laws.pending h.buffer) text)
              ∙ ap (λ t. t ++ text) h.all;
        },
      )

  log_entry-Holds :
      (before written : Text) (entry : Entry) (l : Logs lines.Buffer)
      → Holds before written l
      → (l' : Logs lines.Buffer) × (log_entry lines entry l ≡ some l')
        × Holds before (written ++ text_of entry) l'
  unfolding log_entry
  log_entry-Holds before written (logs text) l h = write_mask-Holds before written text l h
  log_entry-Holds before written (prompts cmd) l h =
      write_mask-Holds before written (prompt cmd) l h
  log_entry-Holds before written (reports text) l h =
      write_mask-Holds before written (report text) l h

  log_all-Holds :
      (before written : Text) (entries : List Entry) (l : Logs lines.Buffer)
      → Holds before written l
      → (l' : Logs lines.Buffer) × (log_all lines entries l ≡ some l')
        × Holds before (written ++ concat (map text_of entries)) l'
  unfolding log_all
  log_all-Holds before written [] l h =
      (l, refl, subst (λ t. Holds before t l) (sym (append-nil written)) h)
  log_all-Holds before written (entry ∷ entries) l h =
      let (middle, one, held) = log_entry-Holds before written entry l h in
      let (l', rest, holds) = log_all-Holds before (written ++ text_of entry) entries middle held in
      (
        l',
        rw (one, log_all) rest,
        subst (λ t. Holds before t l')
            (append_assoc written (text_of entry) (concat (map text_of entries))) holds,
      )

  destroy-Holds :
      (before written : Text) (l : Logs lines.Buffer)
      → Holds before written l
      → destroy lines l ≡ before ++ mask (new_writer sort env secrets) (ended written)
  unfolding destroy
  destroy-Holds before written l h =
      rw (h.is_set, destroy)
        (passes_on l.sent before h.passed (lines.close h.buffer) h.sends h.by_lines
            (laws.closes_whole h.buffer)
          ∙ ap (λ t. before ++ mask (new_writer sort env secrets) (h.passed ++ t))
              (laws.closes h.buffer)
          ∙ ap (λ t. before ++ mask (new_writer sort env secrets) t)
              (sym (lines-ended h.passed (laws.pending h.buffer) h.by_lines) ∙ ap ended h.all))

  -- Where the line writer does what it documents, a masked log never meets a writer that is nil, and
  -- what it has written to the direct writer when it is closed is the mask of the whole text, with
  -- the end of its last line, however the text was cut; what waited in a writer that was set up
  -- before is lost.
  pub masked_logs_whole :
      (entries : List Entry) (l : Logs lines.Buffer)
      → (l' : Logs lines.Buffer) × (log_all lines entries
            (setup_mask_writer lines (new_writer sort env secrets) l)
          ≡ some l')
        × (destroy lines l'
            ≡ l.sent ++ mask (new_writer sort env secrets) (ended (concat (map text_of entries))))
  unfolding setup_mask_writer
  masked_logs_whole entries l =
      let writer = new_writer sort env secrets in
      let start = setup_mask_writer lines writer l in
      let begins : Holds l.sent [] start = record {
        passed = [];
        buffer = lines.empty;
        is_set = refl;
        sends =
            sym (append-nil l.sent)
            ∙ ap (λ t. l.sent ++ t) (mask-concat sort sorts env secrets [] tt);
        by_lines = inl refl;
        all = laws.starts;
      } in
      let (l', done, holds) = log_all-Holds l.sent [] entries start begins in
      (l', done, destroy-Holds l.sent (concat (map text_of entries)) l' holds)

  -- Where the line writer does what it documents, what a masked log writes to the direct writer does
  -- not contain a line of a secret variable's value, less the white space at the line's ends, where
  -- that has no star in it and is not empty, even if the secret was written in parts.
  pub masked_logs_hide :
      (entries : List Entry) (l : Logs lines.Buffer) (secret value line : Text) (c : ℕ)
      (item : Text)
      → Any (λ s. s ≡ secret) secrets
      → lookup secret env ≡ some value
      → Any (λ t. t ≡ line) (split_lines value)
      → trim_space line ≡ c ∷ item
      → Starless (c ∷ item)
      → (l' : Logs lines.Buffer) × (added : Text) × (log_all lines entries
            (setup_mask_writer lines (new_writer sort env secrets) l)
          ≡ some l')
        × (destroy lines l' ≡ l.sent ++ added)
        × (contains added (c ∷ item) ≡ false)
  masked_logs_hide entries l secret value line c item known set on trimmed starless =
      let (l', done, whole) = masked_logs_whole entries l in
      let text = ended (concat (map text_of entries)) in
      (
        l',
        mask (new_writer sort env secrets) text,
        done,
        whole,
        mask_hides sort sorts env secrets secret value line c item text known set on trimmed
            starless,
      )
