-- ===== src/Telemetry/Lines.antt =====
-- The lines of a job that reach the live log streams.
use Prim.Native.String.{◌++◌ as ◌<>◌}
use mathlib.Core.List.{Perm}
use mathlib.Core.List.Perm
use state_graph.Prelude.{String, ◌≡◌, Option, none, some, List, [], ◌∷◌, ◌++◌}
use state_graph.Values.{Error}
use state_graph.Exec.{Result, ok, err}
use state_graph.Telemetry.{LogRow}
use state_graph.Telemetry.Writers.{Driver, LogWriter, PodLogs}

abbrev pub lines_or_none : Option (List String) → List String
lines_or_none none = []
lines_or_none (some lines) = lines

-- the lines of the pods whose log can be read
abbrev pub all_lines : (String → Option (List String)) → List String → List String
all_lines logs [] = []
all_lines logs (pod ∷ pods) = lines_or_none (logs pod) ++ all_lines logs pods

abbrev pub reading : Error → Option (List String) → Result (List String)
reading failure none = err failure
reading failure (some lines) = ok lines

-- What has been shown live, and what will have been when each goroutine that was started has ended, by
-- the messages. The callback shows a row, and nothing else does; a goroutine runs once, at any time.
pub record Shows {W : Type 0} (lw : LogWriter W) (k : PodLogs W)
    (logs : String → Option (List String)) (shown at_end : W → List String) : Type 0 where
  pub on_write : LogRow → W → W
  pub calls : lw.on_write ≡ some on_write
  pub shows : (row : LogRow) (w : W) → shown (on_write row w) ≡ shown w ++ row.message ∷ []
  pub inserts :
      (ch : Driver W)
      → lw.ch ≡ some ch
      → (row : LogRow) (w : W) → shown (ch.insert_log row w).1 ≡ shown w
  pub runs_once :
      (body : W → W) (message : String)
      → ((v : W) → shown (body v) ≡ shown v ++ message ∷ [])
      → (w : W) → Perm (at_end (lw.go body w)) (at_end w ++ message ∷ [])
  pub failure : Error
  pub reads :
      (pod : String) (w : W)
      → (w' : W) × (k.read_log pod w ≡ (reading failure (logs pod), w'))
        × Perm (at_end w') (at_end w)
