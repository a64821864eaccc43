-- ===== src/AsyncLogging/Tests.antt =====
-- Runs of the log's threads.
use ryan_network_library.Prelude.{
  ◌+◌, ◌≤◌, ℕ, ◌≡◌, refl, Option, some, List, [], ◌∷◌, ◌++◌, arith, ◌>>=◌,
}
use ryan_network_library.AsyncLogging.{Event, log, advance, start, run, file_bytes}
use ryan_network_library.AsyncLogging.Order.{logged}
use ryan_network_library.LogFile.{new_log_file}
use ryan_network_library.LogFile.Writing.{sum}
use ryan_network_library.AsyncLogging.Output.{
  Disk, Logging, line_logged, written_on, run as run_all, Event as LoggingEvent,
  bytes_of as lines_of,
}
use ryan_network_library.AsyncLogging.Files.{IsWritten, run-IsWritten, start-IsWritten}

abbrev four : List ℕ
four = 9 ∷ 9 ∷ 9 ∷ 9 ∷ []

-- Two lines that do not fit into one buffer, a round of the writing thread, and a line between.
abbrev events : List Event
events =
    log (1 ∷ 2 ∷ 3 ∷ [])
    ∷ log (4 ∷ 5 ∷ [])
    ∷ advance
    ∷ advance
    ∷ log (6 ∷ [])
    ∷ advance
    ∷ advance
    ∷ []

-- What the file has after it: every buffer whole.
file : Option (List ℕ)
unfolding run start file_bytes
file = do a ← run four events (start four); some (file_bytes a.written)

file_whole : file ≡ some (1 ∷ 2 ∷ 3 ∷ 0 ∷ 4 ∷ 5 ∷ 0 ∷ 0 ∷ [])
unfolding file ryan_network_library.FixedBuffer.append
file_whole = refl

abbrev disk : ℕ → Disk
disk n = record { taken = 3 ∷ 1 ∷ []; now = 100 + n; rolled = 100 + n }

abbrev beginning : Logging
beginning = record { front = start four; files = new_log_file 100 6 0 1024 }

abbrev history : List LoggingEvent
history =
    line_logged (1 ∷ 2 ∷ 3 ∷ [])
    ∷ line_logged (4 ∷ 5 ∷ [])
    ∷ written_on disk
    ∷ written_on disk
    ∷ line_logged (6 ∷ [])
    ∷ written_on disk
    ∷ []

disk_takes : (n : ℕ) → 4 ≤ sum (disk n).taken
disk_takes n = omega arith

run-IsWritten_example :
    (s' : Logging) × (run_all four history beginning ≡ some s')
    × IsWritten 4 s'
    × (logged s'.front ≡ logged beginning.front ++ lines_of history)
run-IsWritten_example =
    run-IsWritten 4 four refl (omega arith) history beginning
      (omega arith, (omega arith, (disk_takes, (disk_takes, (omega arith, (disk_takes, tt))))))
      (start-IsWritten 4 four 100 6 0 1024 refl (omega arith) (omega arith))
