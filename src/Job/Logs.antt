-- ===== src/Job/Logs.antt =====
-- The logs of a job in internal/job/process.go: its masked writer, of which what was not passed on
-- waits in a line writer, and what reaches the direct writer of internal/bufferer. The line writer
-- (reconquest/lineflushwriter-go, with a newline ensured at the end) is outside, and so is the text
-- of an error.
pub mod Whole
use snake_runner.Base.{Text, codes, List, [], ◌∷◌, ◌++◌, map, concat, join, Option, none, some}
use snake_runner.Masker.{Writer, mask}

-- What `Write` and `Close` pass on, in one write after the other.
pub record LineWriter : Type 1 where
  pub Buffer : Type 0
  pub empty : Buffer
  pub write : Buffer → Text → Buffer × List Text
  pub close : Buffer → List Text

pub record Logs (Buffer : Type 0) : Type 0 where
  -- `masker` and `maskWriter`, which are nil at first
  pub masked : Option (Writer × Buffer)
  -- what was written to `directWriter`, in all
  pub sent : Text

-- What a job logs behind the mask: `LogMask`, `MaskSendPrompt`, and `errorRemote` or `errorfRemote`
-- with the text of the error.
pub data Entry : Type 0 where
  logs : Text → Entry
  prompts : List Text → Entry
  reports : Text → Entry

abbrev pub prompt : List Text → Text
prompt cmd = codes "\n$ " ++ (join (codes " ") cmd ++ codes "\n")

abbrev pub report : Text → Text
report text = codes "\n\n" ++ (text ++ codes "\n")

module _ (lines : LineWriter) where
  -- `SetupMaskWriter`; a writer that was there before is not closed.
  unfoldable pub setup_mask_writer : Writer → Logs lines.Buffer → Logs lines.Buffer
  setup_mask_writer writer l = record l { masked = some (writer, lines.empty) }

  -- `Write` of the line writer and of the masker; `none` where it is called on nil.
  unfoldable pub write_mask : Text → Logs lines.Buffer → Option (Logs lines.Buffer)
  write_mask text l = elim l.masked [
    | none ↦ none
    | some (writer, buffer) ↦
        let (buffer', passed) = lines.write buffer text in
        some (record l {
          masked = some (writer, buffer');
          sent = l.sent ++ concat (map (mask writer) passed);
        })
  ]

  unfoldable pub log_entry : Entry → Logs lines.Buffer → Option (Logs lines.Buffer)
  unfolding write_mask
  log_entry (logs text) l = write_mask text l
  log_entry (prompts cmd) l = write_mask (prompt cmd) l
  log_entry (reports text) l = write_mask (report text) l

  abbrev and_then :
      Option (Logs lines.Buffer)
      → (Logs lines.Buffer → Option (Logs lines.Buffer))
      → Option (Logs lines.Buffer)
  and_then none go = none
  and_then (some l) go = go l

  unfoldable pub log_all : List Entry → Logs lines.Buffer → Option (Logs lines.Buffer)
  unfolding log_entry
  log_all [] l = some l
  log_all (entry ∷ entries) l = and_then (log_entry entry l) (log_all entries)

  -- `execShell` with the chunks of the command's output.
  abbrev pub shell_entries : Text → List Text → List Entry
  shell_entries cmd output = prompts (cmd ∷ []) ∷ map logs output

  -- `LogDirect`, and `ErrorfDirect`
  unfoldable pub log_direct : Text → Logs lines.Buffer → Logs lines.Buffer
  log_direct text l = record l { sent = l.sent ++ text }

  -- `Destroy` up to the closing of the direct writer.
  unfoldable pub destroy : Logs lines.Buffer → Text
  destroy l = elim l.masked [
    | none ↦ l.sent
    | some (writer, buffer) ↦ l.sent ++ concat (map (mask writer) (lines.close buffer))
  ]
