-- ===== src/LogFile/Tests.antt =====
-- Runs of the log file.
use ryan_network_library.Prelude.{
  ℕ, ◌≤◌, ◌<◌, ◌≡◌, refl, Option, none, some, List, [], ◌∷◌, ◌++◌, arith, ◌>>=◌,
}
use ryan_network_library.LogFile.{
  FileUtil, LogFile, append, append_in_lock, new_log_file, Call, append_call, flush_call, run,
}
use ryan_network_library.LogFile.Writing.{append_ends}
use ryan_network_library.LogFile.Rolling.{
  IsValid, held, appended, run_appends, new_log_file-IsValid,
}

abbrev file : FileUtil
file = record { opened = 100000; written_bytes_ = 2; content = 1 ∷ 2 ∷ []; flushed = 0 }

-- A disk that takes two bytes, then none, then the others.
append_ends_example :
    (3 ≤ 9
      → (rest : List ℕ) × (append (2 ∷ 0 ∷ 7 ∷ []) (3 ∷ 4 ∷ 5 ∷ []) file
          ≡ some (rest, record file { written_bytes_ = 5; content = 1 ∷ 2 ∷ 3 ∷ 4 ∷ 5 ∷ [] })))
    × (9 < 3 → append (2 ∷ 0 ∷ 7 ∷ []) (3 ∷ 4 ∷ 5 ∷ []) file ≡ none)
append_ends_example = append_ends (2 ∷ 0 ∷ 7 ∷ []) (3 ∷ 4 ∷ 5 ∷ []) file

abbrev log_file : LogFile
log_file = new_log_file 100000 2 3 1024

-- The second append makes the file too long; the third goes to the next one.
abbrev calls : List Call
calls =
    append_call (2 ∷ []) (1 ∷ 2 ∷ []) 100001 100001
    ∷ flush_call
    ∷ append_call (1 ∷ []) (3 ∷ []) 100002 100002
    ∷ append_call (5 ∷ []) (4 ∷ []) 100003 100003
    ∷ []

run_appends_example :
    (l' : LogFile) × (run calls log_file ≡ some l')
    × IsValid l'
    × (held l' ≡ held log_file ++ appended calls)
run_appends_example =
    run_appends calls log_file (omega arith, (omega arith, (omega arith, tt)))
      (new_log_file-IsValid 100000 2 3 1024 (omega arith))

closed_files : Option (List FileUtil)
unfolding run new_log_file append_in_lock
closed_files = do l ← run calls log_file; some l.closed

closed_files_one :
    closed_files
    ≡ some
        (record { opened = 100000; written_bytes_ = 3; content = 1 ∷ 2 ∷ 3 ∷ []; flushed = 2 } ∷ [])
unfolding closed_files
closed_files_one = refl
