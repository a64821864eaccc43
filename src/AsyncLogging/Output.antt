-- ===== src/AsyncLogging/Output.antt =====
-- AsyncLogging on LogFile: what the files of logger/log_file.cc hold when the writing thread of
-- logger/async_logging.cc puts its buffers out.
use ryan_network_library.Prelude.{
  ℕ, suc, ◌+◌, ◌≤◌, ◌<◌, ◌≡◌, Option, some, List, [], ◌∷◌, ◌++◌, length, ◌>>=◌,
}
use ryan_network_library.FixedBuffer.{FixedBuffer, to_string, text}
use ryan_network_library.AsyncLogging.{
  AsyncLogging, waiting, collected, output, append_line, collect, put_out, refill,
}
use ryan_network_library.LogFile.{LogFile, append_in_lock, flush_file}
use ryan_network_library.LogFile.Writing.{sum}

-- What the disk and the clock say in one call of `Append` of the log file.
pub record Disk : Type 0 where
  pub taken : List ℕ
  pub now : ℕ
  pub rolled : ℕ

-- The threads that log with the files: `output` of `ThreadFunc`.
pub record Logging : Type 0 where
  pub front : AsyncLogging
  pub files : LogFile

-- The loop over `buffersToWrite`.
unfoldable pub put_buffers : (ℕ → Disk) → List FixedBuffer → LogFile → Option LogFile
put_buffers disk [] l = some l
put_buffers disk (b ∷ bs) l = do
  l' ← append_in_lock (disk 0).taken (to_string b) (disk 0).now (disk 0).rolled l
  put_buffers (λ n. disk (suc n)) bs l'

-- The next part of the loop of `ThreadFunc`; its last part ends with `output.Flush()`.
unfoldable pub write_on : (ℕ → Disk) → Logging → Option Logging
unfolding put_buffers
write_on disk s = elim s.front.phase [
  | waiting ↦ (do front ← collect s.front; some (record s { front = front }))
  | collected ↦ (do
    files ← put_buffers disk s.front.buffers_to_write s.files
    some (record { front = put_out s.front; files = files }))
  | output ↦ (do
    front ← refill s.front
    files ← flush_file s.files
    some (record { front = front; files = files }))
]

-- A line of any thread, or the next part of the writing thread's loop, with the disk and the clock.
pub data Event : Type 0 where
  line_logged : List ℕ → Event
  written_on : (ℕ → Disk) → Event

unfoldable pub step : List ℕ → Event → Logging → Option Logging
unfolding write_on
step memory (line_logged line) s = do
  front ← append_line memory line s.front
  some (record s { front = front })
step memory (written_on disk) s = write_on disk s

unfoldable pub run : List ℕ → List Event → Logging → Option Logging
unfolding step
run memory [] s = some s
run memory (e ∷ es) s = do s' ← step memory e s; run memory es s'

abbrev pub bytes_of : List Event → List ℕ
bytes_of [] = []
bytes_of (line_logged line ∷ es) = line ++ bytes_of es
bytes_of (written_on disk ∷ es) = bytes_of es

-- Lines are shorter than a buffer, and the disk takes a buffer in every call.
abbrev pub AllFair : ℕ → List Event → Type 0
AllFair size [] = Unit {0}
AllFair size (line_logged line ∷ es) = (length line < size) × AllFair size es
AllFair size (written_on disk ∷ es) = ((n : ℕ) → size ≤ sum (disk n).taken) × AllFair size es

-- The bytes are the texts of the buffers in order, each filled up to the size of a buffer.
abbrev pub IsPadded : ℕ → List FixedBuffer → List ℕ → Type 0
IsPadded size [] out = out ≡ []
IsPadded size (b ∷ bs) out =
    (slack : List ℕ) × (rest : List ℕ) × (out ≡ text b ++ (slack ++ rest))
    × (length (text b) + length slack ≡ size)
    × IsPadded size bs rest
