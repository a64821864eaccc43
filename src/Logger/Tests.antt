-- ===== src/Logger/Tests.antt =====
-- A line of the log.
use ryan_network_library.Prelude.{
  ℕ, ◌≡◌, refl, inr, some, List, [], ◌∷◌, ◌++◌, arith, replicate, pos,
}
use ryan_network_library.FixedBuffer.{FixedBuffer, text}
use ryan_network_library.LogStream.{put_string}
use ryan_network_library.LogStream.Digits.{read_integer}
use ryan_network_library.Logger.{warn, Logger, new_logger, finish}
use ryan_network_library.Logger.Lines.{HasText, IsBasename, front_text, back_text, log_line}

abbrev clock : List ℕ
clock =
    b'2' ∷ b'0' ∷ b'2' ∷ b'3' ∷ b'/' ∷ b'0' ∷ b'6' ∷ b'/' ∷ b'1' ∷ b'2' ∷ b' ' ∷ b'1' ∷ b'9' ∷ b':'
    ∷ b'4' ∷ b'4' ∷ b':' ∷ b'2' ∷ b'8' ∷ []

abbrev fraction : List ℕ
fraction = b'0' ∷ b'0' ∷ b'0' ∷ b'0' ∷ b'4' ∷ b'2' ∷ b' ' ∷ []

abbrev empty : FixedBuffer
empty = record { data_ = replicate 128 0; curr = 0 }

empty-HasText : HasText 128 [] empty
empty-HasText = record {
  valid = record { within = omega arith; size = omega arith };
  storage = refl;
  holds = refl;
}

-- "net/a.cc" and "hi".
abbrev file : List ℕ
file = b'n' ∷ b'e' ∷ b't' ∷ b'/' ∷ b'a' ∷ b'.' ∷ b'c' ∷ b'c' ∷ []

file-IsBasename : IsBasename file (b'a' ∷ b'.' ∷ b'c' ∷ b'c' ∷ [])
file-IsBasename = (omega arith, inr (b'n' ∷ b'e' ∷ b't' ∷ [], refl))

log_line_example :
    (l : Logger) × (b : FixedBuffer) × (l' : Logger) × (word : List ℕ) × (new_logger clock fraction
        [] warn
        (pos 0)
        file
        (pos 77)
        empty
      ≡ some l)
    × (put_string (b'h' ∷ b'i' ∷ []) l.stream ≡ some b)
    × (finish (record l { stream = b }) ≡ some l')
    × (text l'.stream
        ≡ back_text
            (front_text clock fraction warn ++ (b'h' ∷ b'i' ∷ []))
            (b'a' ∷ b'.' ∷ b'c' ∷ b'c' ∷ [])
            word)
    × (read_integer word ≡ some (pos 77))
log_line_example =
    log_line 128 clock fraction [] warn file (b'a' ∷ b'.' ∷ b'c' ∷ b'c' ∷ []) (b'h' ∷ b'i' ∷ [])
      (pos 77) empty empty-HasText file-IsBasename (omega arith) (omega arith) (omega arith)
