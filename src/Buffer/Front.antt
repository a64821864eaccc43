-- ===== src/Buffer/Front.antt =====
-- Prepend, Shrink and the constructor of buffer/buffer.h, and the `int` parameter of MakeSpace.
use ryan_network_library.Prelude.{
  ℕ, suc, ◌+◌, ◌-◌, ◌%◌, ◌^◌, ◌≤◌, ◌<◌, ◌≡◌, refl, sym, ap, ◌∙◌, none, some, List, [], ◌++◌,
  append_assoc, arith, length, take, drop, replicate, length-append, take-append-drop, length-take,
  length-drop, length-replicate, lt→ltb, add64, drop-append, copy_to, length-slice, copy_to-append,
}
use ryan_network_library.Buffer.{
  Buffer, cheap_prepend, new, readable_bytes, writable_bytes, prependable_bytes, content_to_string,
  ensure_writable_bytes, prepend, shrink,
}
use ryan_network_library.Buffer.Layout.{
  IsValid, contents, Layout, length-Layout, Layout-IsValid, Layout-contents, IsValid-Layout,
  readable_bytes-Layout, writable_bytes-Layout,
}
use ryan_network_library.Buffer.Space.{make_space_move, ensure_writable_bytes-Layout, append-Layout}

pub new-Layout : (n : ℕ) → n < 2 ^ 61 → Layout (new n) (replicate 8 0) [] (replicate n 0)
unfolding new
new-Layout n h = record {
  whole = ap (λ k. replicate {A = ℕ} k 0) grown;
  reader = refl;
  writer = refl;
  base = omega arith;
  size = omega (arith, length-replicate {A = ℕ} n 0);
}
  where
    grown : add64 cheap_prepend n ≡ suc (suc (suc (suc (suc (suc (suc (suc n)))))))
    grown = omega arith

copy_to-front :
    {b : Buffer} {p c f : List ℕ} (bytes : List ℕ)
    → Layout b p c f
    → length bytes ≤ length p
    → copy_to b.buffer (length p - length bytes) bytes
      ≡ some (take (length p - length bytes) p ++ (bytes ++ (c ++ f)))
copy_to-front {b} {p} {c} {f} bytes l h =
    let k : ℕ = length p - length bytes in
    rw (l.whole, cut k)
      (copy_to-append k (take k p) bytes (drop k p ++ (c ++ f)) (omega (arith, length-take k p))
          (omega (arith, length-append (drop k p) (c ++ f), length-drop k p))
        ∙ ap (λ t. some (take k p ++ (bytes ++ t)))
            (drop-append (length bytes) (drop k p) (c ++ f) (omega (arith, length-drop k p))))
  where
    cut : (k : ℕ) → p ++ (c ++ f) ≡ take k p ++ (drop k p ++ (c ++ f))
    cut k = rw (← append_assoc (take k p), take-append-drop k p)

pub prepend-Layout :
    {b : Buffer} {p c f : List ℕ} (bytes : List ℕ)
    → Layout b p c f
    → length bytes ≤ length p
    → (b' : Buffer) × (prepend bytes b ≡ some b')
      × Layout b' (take (length p - length bytes) p) (bytes ++ c) f
unfolding prepend
prepend-Layout {b} {p} {c} {f} bytes l h = (
  record b {
    buffer = take (length p - length bytes) p ++ (bytes ++ (c ++ f));
    reader_index = b.reader_index - length bytes;
  },
  ground (arith, l.reader, l.writer, l.size, length-Layout l, copy_to-front bytes l h),
  record {
    whole = simp append_assoc;
    reader = omega (arith, l.reader, length-take (length p - length bytes) p);
    writer =
        omega (arith, l.writer, length-append bytes c, length-take (length p - length bytes) p);
    base = omega (arith, l.base, length-append bytes c, length-take (length p - length bytes) p);
    size = omega (arith, l.size, length-append bytes c, length-take (length p - length bytes) p);
  },
)

-- `Prepend` on a valid buffer: with room in front of the content the bytes are put before it and the
-- writable bytes stay; without room the assertion fails.
pub prepend_lem :
    (b : Buffer) (bytes : List ℕ)
    → IsValid b
    → (length bytes ≤ prependable_bytes b
        → (b' : Buffer) × (prepend bytes b ≡ some b')
          × IsValid b'
          × (contents b' ≡ bytes ++ contents b)
          × (writable_bytes b' ≡ writable_bytes b))
      × (prependable_bytes b < length bytes → prepend bytes b ≡ none)
unfolding prepend
prepend_lem b bytes v = (
  λ h.
      let (b', e, l) =
        prepend-Layout bytes (IsValid-Layout v) (omega (arith, (IsValid-Layout v).reader)) in
      (
        b',
        e,
        Layout-IsValid l,
        Layout-contents l,
        writable_bytes-Layout l ∙ sym (writable_bytes-Layout (IsValid-Layout v)),
      ),
  λ h. ground arith,
)

pub content_to_string_lem : {b : Buffer} → IsValid b → content_to_string b ≡ some (contents b)
unfolding content_to_string
content_to_string_lem {b} v =
    rw (readable_bytes-Layout (IsValid-Layout v))
      (ground (arith, length-slice b.reader_index (b.writer_index - b.reader_index) b.buffer))

shrink_request :
    (b : Buffer) (reserve : ℕ)
    → IsValid b
    → length (contents b) + reserve < 2 ^ 31
    → add64 (readable_bytes b) reserve ≡ length (contents b) + reserve
shrink_request b reserve v small = omega (arith, readable_bytes-Layout (IsValid-Layout v))

-- `Shrink` of a valid buffer, with the content and the reserve below 2 ^ 31 bytes together, does not
-- fault and gives a valid buffer with the same content.
pub shrink_lem :
    (b : Buffer) (reserve : ℕ)
    → IsValid b
    → length (contents b) + reserve < 2 ^ 31
    → (b' : Buffer) × (shrink reserve b ≡ some b') × IsValid b' × (contents b' ≡ contents b)
unfolding shrink
shrink_lem b reserve v small =
    let (other, _, _, e, room, g, l) =
      ensure_writable_bytes-Layout (length (contents b) + reserve) (new-Layout 1024 (omega arith))
        small (omega (arith, length-replicate {A = ℕ} 8 0, length-replicate {A = ℕ} 1024 0)) in
    let (b', p', f', e', _, l') =
      append-Layout (contents b) l (omega arith)
        (omega (arith, g, length-replicate {A = ℕ} 1024 0)) in
    (
      b',
      rw (shrink_request b reserve v small, e, content_to_string_lem v, e'),
      Layout-IsValid l',
      Layout-contents l',
    )

-- The conversion to `int` at 4 GiB: for a request of a multiple of 2 ^ 32 bytes, from a valid buffer
-- whose storage is no larger than the request and whose reader stands at 8 or later,
-- `EnsureWritableBytes` returns without making the room.
pub ensure_writable_bytes_truncates :
    (b : Buffer) (len : ℕ)
    → IsValid b
    → len % 2 ^ 32 ≡ 0
    → 8 ≤ b.reader_index
    → length b.buffer ≤ len
    → (b' : Buffer) × (ensure_writable_bytes len b ≡ some b') × (writable_bytes b' < len)
unfolding ensure_writable_bytes
ensure_writable_bytes_truncates b len v zero_low reader small =
    let l = IsValid-Layout v in
    let (b', p', f', e, front, g, l') =
      make_space_move len 0 l (ground arith) (omega arith) (omega (arith, l.reader)) in
    (
      b',
      rw
          (
            writable_bytes-Layout l,
            lt→ltb (length (drop b.writer_index b.buffer)) len
                (omega (arith, length-Layout l, l.reader)),
          )
          e,
      omega (arith, writable_bytes-Layout l', front, g, l.reader, length-Layout l),
    )
