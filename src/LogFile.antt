-- ===== src/LogFile.antt =====
-- logger/file_util.h, file_util.cc, log_file.h and log_file.cc: the files of the log. The clock and
-- the disk are arguments: a reading of `time` for each call of it, and for each call of
-- `fwrite_unlocked` how many bytes the disk would take. A time, a size and a number of bytes are
-- natural numbers; times count seconds from 1970, and the interval and the sizes of the constructor
-- are not negative. A file can always be opened.
pub mod Writing
pub mod Rolling
mod Tests
use ryan_network_library.Prelude.{
  ℕ, ◌+◌, ◌-◌, ◌*◌, ◌/◌, min, Bool, true, false, not, Option, none, some, List, [], ◌∷◌, ◌++◌,
  length, take, drop, ltb, leb, ◌==◌, if◌then◌else◌, ◌>>=◌, ◌>>◌,
}

-- A file is known by the time in its name. `content` is what was written to it since it was opened, and
-- `flushed` of these bytes went through the buffer of the stream.
pub record FileUtil : Type 0 where
  pub opened : ℕ
  pub written_bytes_ : ℕ
  pub content : List ℕ
  pub flushed : ℕ

unfoldable pub open_file : ℕ → FileUtil
open_file now = record { opened = now; written_bytes_ = 0; content = []; flushed = 0 }

-- `Write`: fwrite takes no more than it is given, and says how many bytes it took.
unfoldable pub write : ℕ → List ℕ → FileUtil → ℕ × FileUtil
write taken bytes f = (
  min taken (length bytes),
  record f { content = f.content ++ take (min taken (length bytes)) bytes },
)

-- The loop of `Append`. `none` when the results end before the loop does.
unfoldable pub append_loop : List ℕ → List ℕ → ℕ → FileUtil → Option (List ℕ × ℕ × FileUtil)
unfolding write
append_loop [] bytes written f = if written == length bytes then some ([], written, f) else none
append_loop (r ∷ rs) bytes written f =
    let remain = drop written bytes in
    let (n, f') = write r remain f in
    let rest = append_loop rs bytes (written + n) f' in
    if written == length bytes then some (r ∷ rs, written, f) else rest

-- `Append`: the results that are left, and the file.
unfoldable pub append : List ℕ → List ℕ → FileUtil → Option (List ℕ × FileUtil)
unfolding append_loop
append results bytes f = do
  (rest, written, f') ← append_loop results bytes 0 f
  some (rest, record f' { written_bytes_ = f'.written_bytes_ + written })

unfoldable pub flush : FileUtil → FileUtil
flush f = record f { flushed = length f.content }

-- `closed` are the files before `file_`, the last one first.
pub record LogFile : Type 0 where
  pub roll_size_ : ℕ
  pub flush_interval_ : ℕ
  pub check_every_n_ : ℕ
  pub count_ : ℕ
  pub start_of_period_ : ℕ
  pub last_roll_ : ℕ
  pub last_flush_ : ℕ
  pub file_ : Option FileUtil
  pub closed : List FileUtil

-- 60 * 60 * 24
abbrev pub roll_per_seconds : ℕ
roll_per_seconds = 86400

abbrev pub period : ℕ → ℕ
period now = now / roll_per_seconds * roll_per_seconds

-- `reset` closes the file that there was.
abbrev pub close : Option FileUtil → List FileUtil → List FileUtil
close none files = files
close (some f) files = f ∷ files

unfoldable pub roll_file : ℕ → LogFile → Bool × LogFile
unfolding open_file
roll_file now l =
    if ltb l.last_roll_ now
    then (
      true,
      record l {
        last_roll_ = now;
        last_flush_ = now;
        start_of_period_ = period now;
        file_ = some (open_file now);
        closed = close l.file_ l.closed;
      },
    )
    else (false, l)

-- The constructor, at the time that it reads.
unfoldable pub new_log_file : ℕ → ℕ → ℕ → ℕ → LogFile
unfolding roll_file
new_log_file now roll_size flush_interval check_every_n =
    (roll_file now (record {
      roll_size_ = roll_size;
      flush_interval_ = flush_interval;
      check_every_n_ = check_every_n;
      count_ = 0;
      start_of_period_ = 0;
      last_roll_ = 0;
      last_flush_ = 0;
      file_ = none;
      closed = [];
    })).1

-- `AppendInLock` behind the file's `Append`. `now` is read here and `rolled` by `RollFile`.
unfoldable pub check_roll : ℕ → ℕ → FileUtil → LogFile → LogFile
unfolding roll_file flush
check_roll now rolled f l =
    if ltb l.roll_size_ f.written_bytes_
    then (roll_file rolled l).1
    else if leb l.check_every_n_ (l.count_ + 1)
    then (if not (period now == l.start_of_period_)
        then (roll_file rolled (record l { count_ = 0 })).1
        else if ltb l.flush_interval_ (now - l.last_flush_)
        then record l { count_ = 0; last_flush_ = now; file_ = some (flush f) }
        else record l { count_ = 0 })
    else record l { count_ = l.count_ + 1 }

-- `Append` and `AppendInLock`. `none` when there is no file, or fwrite does not get on.
unfoldable pub append_in_lock : List ℕ → List ℕ → ℕ → ℕ → LogFile → Option LogFile
unfolding append check_roll
append_in_lock results bytes now rolled l = do
  f ← l.file_
  (rest, f') ← append results bytes f
  some (check_roll now rolled f' (record l { file_ = some f' }))

unfoldable pub flush_file : LogFile → Option LogFile
unfolding flush
flush_file l = do f ← l.file_; some (record l { file_ = some (flush f) })

-- A call of the log file, with what the disk and the clock say.
pub data Call : Type 0 where
  append_call : List ℕ → List ℕ → ℕ → ℕ → Call
  flush_call : Call

unfoldable pub run : List Call → LogFile → Option LogFile
unfolding append_in_lock flush_file
run [] l = some l
run (append_call results bytes now rolled ∷ cs) l = do
  l' ← append_in_lock results bytes now rolled l
  run cs l'
run (flush_call ∷ cs) l = do l' ← flush_file l; run cs l'
