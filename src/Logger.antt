-- ===== src/Logger.antt =====
-- logger/logging.h and logging.cc: one line of the log, from the constructor of Logger to its destructor.
-- What the C library prints of the time and of an error number is an argument.
pub mod Lines
mod Tests
use ryan_network_library.Prelude.{
  ℕ, ◌+◌, ◌-◌, ◌/◌, Bool, true, false, Option, none, some, List, [], ◌∷◌, ◌++◌, take, ◌==◌,
  if◌then◌else◌, ◌>>=◌, ◌>>◌, ℤ, magnitude,
}
use ryan_network_library.FixedBuffer.{FixedBuffer, to_string}
use ryan_network_library.LogStream.{format_integer, put_char, put_string, put_general}

pub data LogLevel : Type 0 where
  trace debug info warn error fatal : LogLevel

abbrev pub level_name : LogLevel → List ℕ
level_name trace = b'T' ∷ b'R' ∷ b'A' ∷ b'C' ∷ b'E' ∷ b' ' ∷ []
level_name debug = b'D' ∷ b'E' ∷ b'B' ∷ b'U' ∷ b'G' ∷ b' ' ∷ []
level_name info = b'I' ∷ b'N' ∷ b'F' ∷ b'O' ∷ b' ' ∷ b' ' ∷ []
level_name warn = b'W' ∷ b'A' ∷ b'R' ∷ b'N' ∷ b' ' ∷ b' ' ∷ []
level_name error = b'E' ∷ b'R' ∷ b'R' ∷ b'O' ∷ b'R' ∷ b' ' ∷ []
level_name fatal = b'F' ∷ b'A' ∷ b'T' ∷ b'A' ∷ b'L' ∷ b' ' ∷ []

abbrev is_fatal : LogLevel → Bool
is_fatal fatal = true
is_fatal _ = false

-- `strrchr`: what stands behind the last slash.
abbrev pub after_slash : List ℕ → Option (List ℕ)
after_slash [] = none
after_slash (c ∷ cs) = elim (after_slash cs) [
  | some rest ↦ some rest
  | none ↦ if c == b'/' then some cs else none
]

-- `SourceFile`.
abbrev pub source_file : List ℕ → List ℕ
source_file name = elim (after_slash name) [ some rest ↦ rest | none ↦ name ]

pub record Logger : Type 0 where
  pub stream : FixedBuffer
  pub level : LogLevel
  pub line : ℤ
  pub basename : List ℕ

-- `FormatTime`: 20 bytes of the printed time, which are 19 and the zero behind them, and seven of the
-- printed microseconds.
unfoldable pub format_time : List ℕ → List ℕ → FixedBuffer → Option FixedBuffer
format_time time microseconds b = do
  b1 ← put_general (take 20 (time ++ (0 ∷ []))) b
  b2 ← put_string (b'.' ∷ []) b1
  put_general (take 7 microseconds) b2

-- The part for an error number that is not 0.
unfoldable pub put_errno : List ℕ → ℤ → FixedBuffer → Option FixedBuffer
put_errno errno_msg saved_errno b = if magnitude saved_errno == 0 then some b else (do
  b1 ← put_string errno_msg b
  b2 ← put_string (b' ' ∷ b'(' ∷ b'e' ∷ b'r' ∷ b'r' ∷ b'n' ∷ b'o' ∷ b'=' ∷ []) b1
  b3 ← format_integer saved_errno b2
  put_string (b')' ∷ b' ' ∷ []) b3)

-- The constructor of `Impl`, in an empty stream.
unfoldable pub new_logger :
    List ℕ → List ℕ → List ℕ → LogLevel → ℤ → List ℕ → ℤ → FixedBuffer → Option Logger
unfolding format_time put_errno
new_logger time microseconds errno_msg level saved_errno file line empty = do
  b1 ← format_time time microseconds empty
  b2 ← put_general (level_name level) b1
  b3 ← put_errno errno_msg saved_errno b2
  some (record { stream = b3; level = level; line = line; basename = source_file file })

-- The constructor with a function's name.
unfoldable pub put_func : List ℕ → Logger → Option Logger
put_func func l = do
  b1 ← put_string func l.stream
  b2 ← put_char b' ' b1
  some (record l { stream = b2 })

-- `Finish`.
unfoldable pub finish : Logger → Option Logger
finish l = do
  b1 ← put_string (b' ' ∷ b'-' ∷ b' ' ∷ []) l.stream
  b2 ← put_general l.basename b1
  b3 ← put_char b':' b2
  b4 ← format_integer l.line b3
  b5 ← put_char 10 b4
  some (record l { stream = b5 })

-- What the destructor gives to the output function, and whether it aborts the program.
unfoldable pub destroy : Logger → Option (List ℕ × Bool)
unfolding finish
destroy l = do l' ← finish l; some (to_string l'.stream, is_fatal l'.level)
