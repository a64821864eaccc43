-- ===== src/Buffer.antt =====
-- buffer/buffer.h and buffer/buffer.cc: the byte buffer between a socket and the application.
-- `buffer_` is a list of bytes, the two indices are `size_t` values, and pointers into `buffer_`
-- are indices. `none` is a fault: a failed `assert`, an access outside `buffer_`, or the exception
-- of `vector::resize` past the largest size. Allocation itself does not fail.
pub mod Layout
pub mod Space
pub mod Front
pub mod Queue
pub mod Search
pub mod Fd
pub mod Ints
mod Tests
use ryan_network_library.Prelude.{
  ℕ, ◌+◌, ◌-◌, ◌%◌, ◌^◌, Option, none, some, List, length, replicate, ltb, leb, if◌then◌else◌,
  add64, sub64, copy_to, slice, resize, ◌>>=◌, ◌>>◌, check,
}

pub record Buffer : Type 0 where
  pub buffer : List ℕ
  pub reader_index : ℕ
  pub writer_index : ℕ

abbrev pub cheap_prepend : ℕ
cheap_prepend = 8

abbrev pub initial_size : ℕ
initial_size = 1024

-- `Buffer(initialSize)`.
unfoldable pub new : ℕ → Buffer
new n = record {
  buffer = replicate (add64 cheap_prepend n) 0;
  reader_index = cheap_prepend;
  writer_index = cheap_prepend;
}

-- Both buffers, after `Swap`.
unfoldable pub swap : Buffer → Buffer → Buffer × Buffer
swap b rhs = (rhs, b)

unfoldable pub readable_bytes : Buffer → ℕ
readable_bytes b = sub64 b.writer_index b.reader_index

unfoldable pub writable_bytes : Buffer → ℕ
writable_bytes b = sub64 (length b.buffer) b.writer_index

unfoldable pub prependable_bytes : Buffer → ℕ
prependable_bytes b = b.reader_index

-- The bytes `[i, i + n)` as a string.
abbrev pub read_at : List ℕ → ℕ → ℕ → Option (List ℕ)
read_at xs i n = if leb (i + n) (length xs) then some (slice i n xs) else none

unfoldable pub retrieve_all : Buffer → Buffer
retrieve_all b = record b { reader_index = cheap_prepend; writer_index = cheap_prepend }

unfoldable pub retrieve : ℕ → Buffer → Buffer
unfolding readable_bytes retrieve_all
retrieve len b =
    if ltb len (readable_bytes b)
    then record b { reader_index = add64 b.reader_index len }
    else retrieve_all b

unfoldable pub retrieve_until : ℕ → Buffer → Buffer
unfolding retrieve
retrieve_until end b = retrieve (sub64 end b.reader_index) b

unfoldable pub retrieve_as_string : ℕ → Buffer → Option (List ℕ × Buffer)
retrieve_as_string len b = do
  result ← read_at b.buffer b.reader_index len
  some (result, retrieve len b)

unfoldable pub retrieve_all_as_string : Buffer → Option (List ℕ × Buffer)
unfolding retrieve_as_string
retrieve_all_as_string b = retrieve_as_string (readable_bytes b) b

unfoldable pub content_to_string : Buffer → Option (List ℕ)
content_to_string b = read_at b.buffer b.reader_index (readable_bytes b)

-- A `size_t` passed as the parameter `int len` of `MakeSpace`, and converted back where it is
-- added to a `size_t`: the low 32 bits, extended by their sign.
abbrev pub int_as_size : ℕ → ℕ
int_as_size len =
    if ltb (len % 2 ^ 32) (2 ^ 31) then len % 2 ^ 32 else len % 2 ^ 32 + (2 ^ 64 - 2 ^ 32)

-- `vector::resize` throws past `PTRDIFF_MAX` elements.
abbrev pub max_size : ℕ
max_size = 2 ^ 63 - 1

unfoldable pub make_space : ℕ → Buffer → Option Buffer
unfolding readable_bytes writable_bytes prependable_bytes
make_space len b =
    let n = int_as_size len in
    let grown = add64 b.writer_index n in
    if ltb (add64 (writable_bytes b) (prependable_bytes b)) (add64 n cheap_prepend)
    then (if leb grown max_size then some (record b { buffer = resize grown 0 b.buffer }) else none)
    else (do
      moved ← copy_to b.buffer cheap_prepend (slice b.reader_index (readable_bytes b) b.buffer)
      some (record {
        buffer = moved;
        reader_index = cheap_prepend;
        writer_index = add64 cheap_prepend (readable_bytes b);
      }))

unfoldable pub ensure_writable_bytes : ℕ → Buffer → Option Buffer
unfolding writable_bytes
ensure_writable_bytes len b = if ltb (writable_bytes b) len then make_space len b else some b

unfoldable pub append : List ℕ → Buffer → Option Buffer
append bytes b = do
  b' ← ensure_writable_bytes (length bytes) b
  stored ← copy_to b'.buffer b'.writer_index bytes
  some (record b' { buffer = stored; writer_index = add64 b'.writer_index (length bytes) })

unfoldable pub prepend : List ℕ → Buffer → Option Buffer
unfolding prependable_bytes
prepend bytes b = do
  check (leb (length bytes) (prependable_bytes b))
  stored ← copy_to b.buffer (sub64 b.reader_index (length bytes)) bytes
  some (record b { buffer = stored; reader_index = sub64 b.reader_index (length bytes) })

-- The buffer after `Shrink`; `other` ends with what it held before.
unfoldable pub shrink : ℕ → Buffer → Option Buffer
unfolding swap
shrink reserve b = do
  other ← ensure_writable_bytes (add64 (readable_bytes b) reserve) (new initial_size)
  bytes ← content_to_string b
  other' ← append bytes other
  some (swap b other').0
