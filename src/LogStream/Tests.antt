-- ===== src/LogStream/Tests.antt =====
-- The theorems on the stream at concrete buffers.
use ryan_network_library.Prelude.{
  ℕ, ◌≤◌, ◌≡◌, refl, true, false, none, some, List, [], ◌∷◌, arith, length, replicate, negsuc,
}
use ryan_network_library.FixedBuffer.{
  FixedBuffer, new, append, IsValid, text, to_string, has_room, append_bounded,
}
use ryan_network_library.LogStream.{format_integer, put_integer, put_double, digit_loop, digit_at}
use ryan_network_library.LogStream.Digits.{read_integer}
use ryan_network_library.LogStream.Numbers.{read_integer-format_integer}

abbrev stream : FixedBuffer
stream = record { data_ = b'n' ∷ b'=' ∷ replicate 60 7; curr = 2 }

stream-IsValid : IsValid stream
stream-IsValid = omega arith

read_integer-format_integer_example :
    (true ≡ true
      → (b' : FixedBuffer) × (word : List ℕ) × (format_integer (negsuc 1024) stream ≡ some b')
        × IsValid b'
        × (text b' ≡ b'n' ∷ b'=' ∷ word)
        × (read_integer word ≡ some (negsuc 1024))
        × (length word ≤ 21)
        × (length b'.data_ ≡ length stream.data_))
    × (true ≡ false → format_integer (negsuc 1024) stream ≡ some stream)
read_integer-format_integer_example =
    read_integer-format_integer (negsuc 1024) stream stream-IsValid (omega arith)

-- "n=-1025".
format_integer_run :
    format_integer (negsuc 1024) stream
    ≡ some (record {
      data_ = b'n' ∷ b'=' ∷ b'-' ∷ b'1' ∷ b'0' ∷ b'2' ∷ b'5' ∷ 0 ∷ replicate 54 7;
      curr = 7;
    })
unfolding format_integer put_integer digit_loop digit_at ryan_network_library.FixedBuffer.add
format_integer_run = refl

-- A nearly full stream: the double has no result.
put_double_full : put_double (b'1' ∷ []) (record stream { curr = 40 }) ≡ none
unfolding put_double
put_double_full = refl
