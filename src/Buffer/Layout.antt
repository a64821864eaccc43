-- ===== src/Buffer/Layout.antt =====
-- The layout of a valid buffer: the bytes in front of the content, the content, and the free bytes.
-- The lemmas on the operations of buffer/buffer.h are stated over it.
use ryan_network_library.Prelude.{
  ℕ, ◌+◌, ◌-◌, ◌^◌, ◌≤◌, ◌<◌, ◌≡◌, List, ◌++◌, arith, length, take, drop, length-append,
  length-take, length-drop, take-append, drop-append, slice, cut_three, length-slice,
}
use ryan_network_library.Buffer.{Buffer, readable_bytes, writable_bytes, prependable_bytes}

-- `base`: an emptied buffer's indices stand at 8. `size` bounds the storage so that no sum of two
-- indices wraps.
pub record IsValid (b : Buffer) : Type 0 where
  pub ordered : b.reader_index ≤ b.writer_index
  pub within : b.writer_index ≤ length b.buffer
  pub base : 8 ≤ length b.buffer
  pub size : length b.buffer < 2 ^ 62

-- The readable bytes.
abbrev pub contents : Buffer → List ℕ
contents b = slice b.reader_index (b.writer_index - b.reader_index) b.buffer

pub record Layout (b : Buffer) (front content free : List ℕ) : Type 0 where
  pub whole : b.buffer ≡ front ++ (content ++ free)
  pub reader : b.reader_index ≡ length front
  pub writer : b.writer_index ≡ length front + length content
  pub base : 8 ≤ length front + length content + length free
  pub size : length front + length content + length free < 2 ^ 62

pub length-Layout :
    {b : Buffer} {p c f : List ℕ}
    → Layout b p c f
    → length b.buffer ≡ length p + length c + length f
length-Layout {b} {p} {c} {f} l =
    rw l.whole (omega (arith, length-append p (c ++ f), length-append c f))

pub Layout-IsValid : {b : Buffer} {p c f : List ℕ} → Layout b p c f → IsValid b
Layout-IsValid l = omega (arith, length-Layout l)

pub Layout-contents : {b : Buffer} {p c f : List ℕ} → Layout b p c f → contents b ≡ c
Layout-contents {b} {p} {c} {f} l =
    rw (l.whole, drop-append b.reader_index p (c ++ f) l.reader)
      (take-append (b.writer_index - b.reader_index) c f (omega (arith, l.reader, l.writer)))

pub IsValid-Layout :
    {b : Buffer}
    → IsValid b
    → Layout b (take b.reader_index b.buffer) (contents b) (drop b.writer_index b.buffer)
IsValid-Layout {b} v = record {
  whole =
      cut_three b.reader_index (b.writer_index - b.reader_index) b.writer_index b.buffer
        (omega arith);
  reader = omega (arith, length-take b.reader_index b.buffer);
  writer = omega (
    arith,
    length-take b.reader_index b.buffer,
    length-slice b.reader_index (b.writer_index - b.reader_index) b.buffer,
  );
  base = omega (
    arith,
    length-take b.reader_index b.buffer,
    length-slice b.reader_index (b.writer_index - b.reader_index) b.buffer,
    length-drop b.writer_index b.buffer,
  );
  size = omega (
    arith,
    length-take b.reader_index b.buffer,
    length-slice b.reader_index (b.writer_index - b.reader_index) b.buffer,
    length-drop b.writer_index b.buffer,
  );
}

-- No `size_t` difference of a valid buffer wraps.
pub readable_bytes-Layout :
    {b : Buffer} {p c f : List ℕ} → Layout b p c f → readable_bytes b ≡ length c
unfolding readable_bytes
readable_bytes-Layout l = omega arith

pub writable_bytes-Layout :
    {b : Buffer} {p c f : List ℕ} → Layout b p c f → writable_bytes b ≡ length f
unfolding writable_bytes
writable_bytes-Layout l = omega (arith, length-Layout l)

-- In a valid buffer the three regions have the sizes that the accessors give, and the content its bytes.
pub sizes :
    {b : Buffer}
    → IsValid b
    → (readable_bytes b ≡ length (contents b))
      × (prependable_bytes b + readable_bytes b + writable_bytes b ≡ length b.buffer)
unfolding prependable_bytes
sizes {b} v =
    let l = IsValid-Layout v in
    (
      readable_bytes-Layout l,
      omega (arith, l.reader, readable_bytes-Layout l, writable_bytes-Layout l, length-Layout l),
    )

pub readable_bytes-sub :
    {b : Buffer} → IsValid b → readable_bytes b ≡ b.writer_index - b.reader_index
unfolding readable_bytes
readable_bytes-sub v = omega arith

pub length-contents :
    {b : Buffer} → IsValid b → length (contents b) ≡ b.writer_index - b.reader_index
length-contents {b} v =
    length-slice b.reader_index (b.writer_index - b.reader_index) b.buffer (omega arith)
