-- ===== src/FixedBuffer.antt =====
-- buffer/fixed_buffer.h: a buffer of `SIZE` bytes, which is the length of `data`, and the place of the
-- next one. `none` is a copy past the storage.
use ryan_network_library.Prelude.{
  ℕ, ◌+◌, ◌^◌, ◌≤◌, ◌<◌, ◌≡◌, refl, sym, inl, inr, Bool, Option, some, List, ◌++◌, arith, length,
  take, drop, replicate, length-append, length-take, length-drop, ltb, leb, if◌then◌else◌, ltb→lt,
  le→leb, Bool-cases, sub64, ◌>>=◌, take-append, take-append_add, copy_to,
}

pub record FixedBuffer : Type 0 where
  pub data_ : List ℕ
  pub curr : ℕ

-- The constructor does not write the storage: the bytes are those that the memory had.
unfoldable pub new : List ℕ → FixedBuffer
new memory = record { data_ = memory; curr = 0 }

-- `Length`: the size of the storage, whatever was appended.
unfoldable pub buffer_length : FixedBuffer → ℕ
buffer_length b = length b.data_

-- `Avail`, as the size_t that `Append` compares.
unfoldable pub avail : FixedBuffer → ℕ
avail b = sub64 (length b.data_) b.curr

-- `Avail() >= n` and `Avail() > n` of integers.
abbrev pub has_room : ℕ → FixedBuffer → Bool
has_room n b = leb (b.curr + n) (length b.data_)

abbrev pub has_more_than : ℕ → FixedBuffer → Bool
has_more_than n b = ltb (b.curr + n) (length b.data_)

-- `Add`.
unfoldable pub add : ℕ → FixedBuffer → FixedBuffer
add len b = record b { curr = b.curr + len }

-- Bytes written from `Current()` on.
abbrev pub write : List ℕ → FixedBuffer → Option FixedBuffer
write bytes b = do bytes' ← copy_to b.data_ b.curr bytes; some (record b { data_ = bytes' })

-- `Append`: what does not fit is dropped.
unfoldable pub append : List ℕ → FixedBuffer → Option FixedBuffer
unfolding avail add
append bytes b =
    let copied = write bytes b in
    if ltb (length bytes) (avail b) then (do b' ← copied; some (add (length bytes) b')) else some b

unfoldable pub reset : FixedBuffer → FixedBuffer
reset b = record b { curr = 0 }

unfoldable pub bzero : FixedBuffer → FixedBuffer
bzero b = record b { data_ = replicate (length b.data_) 0 }

-- `ToString`: the whole storage, as `Length` says.
unfoldable pub to_string : FixedBuffer → List ℕ
unfolding buffer_length
to_string b = take (buffer_length b) b.data_

-- The bytes that were appended.
abbrev pub text : FixedBuffer → List ℕ
text b = take b.curr b.data_

-- The place stays in the storage, whose size is that of an int.
pub record IsValid (b : FixedBuffer) : Type 0 where
  pub within : b.curr ≤ length b.data_
  pub size : length b.data_ < 2 ^ 31

take_split :
    (n m : ℕ) (xs ys : List ℕ)
    → n ≤ length xs
    → length ys ≡ m
    → take (n + m) (take n xs ++ (ys ++ drop (n + m) xs)) ≡ take n xs ++ ys
take_split n m xs ys h e =
    let l = length-take n xs in
    rw
      (
        take-append_add (n + m) m (take n xs) (ys ++ drop (n + m) xs) (omega (arith, l)),
        take-append m ys (drop (n + m) xs) (sym e),
      )
      refl

-- Bytes written with room for them: the text before the place stays, the bytes stand behind it.
pub write_lem :
    (bytes : List ℕ) (b : FixedBuffer)
    → IsValid b
    → b.curr + length bytes ≤ length b.data_
    → (b' : FixedBuffer) × (write bytes b ≡ some b')
      × (b'.curr ≡ b.curr)
      × (length b'.data_ ≡ length b.data_)
      × (take (b.curr + length bytes) b'.data_ ≡ text b ++ bytes)
write_lem bytes b v fits = (
  record b { data_ = take b.curr b.data_ ++ (bytes ++ drop (b.curr + length bytes) b.data_) },
  ground (arith, le→leb (b.curr + length bytes) (length b.data_) fits),
  refl,
  omega (
    arith,
    length-append (take b.curr b.data_) (bytes ++ drop (b.curr + length bytes) b.data_),
    length-append bytes (drop (b.curr + length bytes) b.data_),
    length-take b.curr b.data_,
    length-drop (b.curr + length bytes) b.data_,
    v.within,
  ),
  take_split b.curr (length bytes) b.data_ bytes v.within refl,
)

pub avail-room :
    (n : ℕ) (b : FixedBuffer) → IsValid b → n < 2 ^ 63 → ltb n (avail b) ≡ has_more_than n b
unfolding avail
avail-room n b v h = ground arith

-- `Append` of fewer than 2 ^ 63 bytes to a valid buffer: it writes inside the storage and keeps the
-- buffer valid and its size; with more room than the bytes need, the text grows by them, otherwise
-- nothing changes. Whatever the text, `ToString` gives as many bytes as the storage has.
pub append_bounded :
    (bytes : List ℕ) (b : FixedBuffer)
    → IsValid b
    → length bytes < 2 ^ 63
    → (b' : FixedBuffer) × (append bytes b ≡ some b')
      × IsValid b'
      × (length b'.data_ ≡ length b.data_)
      × (text b' ≡ (if has_more_than (length bytes) b then text b ++ bytes else text b))
      × (length (to_string b') ≡ length b.data_)
unfolding append add to_string buffer_length
append_bounded bytes b v small = elim (Bool-cases (has_more_than (length bytes) b)) [
  | inl room ↦
      let fits : b.curr + length bytes < length b.data_ =
        ltb→lt (b.curr + length bytes) (length b.data_) room in
      let (b', e, c, n, t) = write_lem bytes b v (omega arith) in
      (
        record b' { curr = b'.curr + length bytes },
        rw (avail-room (length bytes) b v (omega (arith, v.size)), room, e) refl,
        omega (arith, c, n, v.size),
        n,
        rw (c, room) t,
        omega (arith, n, length-take (length b'.data_) b'.data_),
      )
  | inr full ↦ (
    b,
    rw (avail-room (length bytes) b v small, full) refl,
    v,
    refl,
    ground arith,
    omega (arith, length-take (length b.data_) b.data_),
  )
]
