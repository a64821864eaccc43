-- ===== src/LogStream.antt =====
-- logger/log_stream.h and log_stream.cc: numbers and text put into a fixed buffer. `none` is an access
-- outside a table or the buffer, or a function that ends without its result.
pub mod Digits
pub mod Numbers
pub mod Pointers
pub mod Texts
mod Tests
use ryan_network_library.Prelude.{
  ℕ, zero, suc, ◌+◌, ◌-◌, ◌/◌, ◌%◌, Option, none, some, List, [], ◌∷◌, ◌++◌, length, get_elem?,
  take, ltb, ◌==◌, if◌then◌else◌, ◌>>=◌, ◌>>◌, ℤ, pos, negsuc, magnitude, is_negative, quotient,
  remainder,
}
use mathlib.Core.List.{reverse}
use ryan_network_library.FixedBuffer.{FixedBuffer, has_room, write, add, append, to_string, reset}

abbrev pub max_numeric_size : ℕ
max_numeric_size = 48

-- `digits`: symmetric round the zero at place 9.
abbrev digits : List ℕ
digits =
    b'9' ∷ b'8' ∷ b'7' ∷ b'6' ∷ b'5' ∷ b'4' ∷ b'3' ∷ b'2' ∷ b'1' ∷ b'0' ∷ b'1' ∷ b'2' ∷ b'3' ∷ b'4'
    ∷ b'5' ∷ b'6' ∷ b'7' ∷ b'8' ∷ b'9' ∷ []

abbrev pub digits_hex : List ℕ
digits_hex =
    b'0' ∷ b'1' ∷ b'2' ∷ b'3' ∷ b'4' ∷ b'5' ∷ b'6' ∷ b'7' ∷ b'8' ∷ b'9' ∷ b'A' ∷ b'B' ∷ b'C' ∷ b'D'
    ∷ b'E' ∷ b'F' ∷ []

-- `zero[remainder]`, where `zero` points to place 9.
unfoldable pub digit_at : ℤ → Option ℕ
digit_at (pos r) = get_elem? digits (9 + r)
digit_at (negsuc r) = if ltb r 9 then get_elem? digits (8 - r) else none

-- The loop of `FormatInteger`, lowest digit first. A 64-bit number has at most 20 digits.
unfoldable pub digit_loop : ℕ → ℤ → Option (List ℕ)
unfolding digit_at
digit_loop zero num = none
digit_loop (suc fuel) num =
    let rest = digit_loop fuel (quotient num 10) in
    let more : ℕ → Option (List ℕ) = λ c. rest >>= λ ds. some (c ∷ ds) in
    digit_at (remainder num 10) >>= λ c.
    if magnitude (quotient num 10) == 0 then some (c ∷ []) else more c

-- The characters, turned round in place, and a zero byte behind them; `Add` passes over the
-- characters.
abbrev pub put_word : List ℕ → FixedBuffer → Option FixedBuffer
put_word word b = do b' ← write (word ++ (0 ∷ [])) b; some (add (length word) b')

abbrev pub sign : ℤ → List ℕ
sign num = if is_negative num then b'-' ∷ [] else []

unfoldable pub put_integer : ℤ → FixedBuffer → Option FixedBuffer
unfolding digit_loop
put_integer num b = do ds ← digit_loop 20 num; put_word (reverse (ds ++ sign num)) b

-- `FormatInteger`: without room for the longest number nothing is put.
unfoldable pub format_integer : ℤ → FixedBuffer → Option FixedBuffer
unfolding put_integer
format_integer num b = if has_room max_numeric_size b then put_integer num b else some b

-- `ConvertHex`, lowest digit first; 16 digits are enough for an address.
unfoldable pub hex_loop : ℕ → ℕ → Option (List ℕ)
hex_loop zero i = none
hex_loop (suc fuel) i =
    let rest = hex_loop fuel (i / 16) in
    let more : ℕ → Option (List ℕ) = λ c. rest >>= λ ds. some (c ∷ ds) in
    get_elem? digits_hex (i % 16) >>= λ c. if i / 16 == 0 then some (c ∷ []) else more c

unfoldable pub put_hex : ℕ → FixedBuffer → Option FixedBuffer
unfolding hex_loop
put_hex v b = do ds ← hex_loop 16 v; put_word (b'0' ∷ b'x' ∷ reverse ds) b

-- `operator<<(const void*)`.
unfoldable pub put_pointer : ℕ → FixedBuffer → Option FixedBuffer
unfolding put_hex
put_pointer v b = if has_room max_numeric_size b then put_hex v b else some b

abbrev put_printed : List ℕ → FixedBuffer → Option FixedBuffer
put_printed word b = do
  b' ← write (take (max_numeric_size - 1) word ++ (0 ∷ [])) b
  some (add (length word) b')

-- `operator<<(double)`; `word` is what `snprintf` has to write for the number, which keeps 47 bytes of
-- it. Without room the function ends with no result.
unfoldable pub put_double : List ℕ → FixedBuffer → Option FixedBuffer
put_double word b = if has_room max_numeric_size b then put_printed word b else none

-- `operator<<` of a char, of a C string or the null pointer, of a string, of a buffer and of a
-- `GeneralTemplate`.
unfoldable pub put_char : ℕ → FixedBuffer → Option FixedBuffer
put_char c b = append (c ∷ []) b

unfoldable pub put_c_string : Option (List ℕ) → FixedBuffer → Option FixedBuffer
put_c_string none b = append (b'(' ∷ b'n' ∷ b'u' ∷ b'l' ∷ b'l' ∷ b')' ∷ []) b
put_c_string (some str) b = append str b

unfoldable pub put_string : List ℕ → FixedBuffer → Option FixedBuffer
put_string str b = append str b

unfoldable pub put_buffer : FixedBuffer → FixedBuffer → Option FixedBuffer
unfolding put_string
put_buffer buf b = put_string (to_string buf) b

unfoldable pub put_general : List ℕ → FixedBuffer → Option FixedBuffer
put_general data_ b = append data_ b

-- `ResetBuffer`.
unfoldable pub reset_buffer : FixedBuffer → FixedBuffer
reset_buffer b = reset b
