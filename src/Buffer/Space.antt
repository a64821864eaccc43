-- ===== src/Buffer/Space.antt =====
-- MakeSpace, EnsureWritableBytes, Append, Prepend and Shrink of buffer/buffer.h: where the room for
-- new bytes comes from, and that the content stays.
use ryan_network_library.Prelude.{
  ℕ, ◌+◌, ◌-◌, ◌^◌, ◌≤◌, ◌<◌, ◌≡◌, refl, sym, ap, inl, inr, some, List, ◌++◌, append_assoc, arith,
  length, take, drop, replicate, length-append, length-take, length-drop, length-replicate, ltb,
  ltb→lt, ltb_false→le, Bool-cases, take_all, copy_to, resize, copy_to-append,
}
use ryan_network_library.Buffer.{
  Buffer, prependable_bytes, int_as_size, make_space, ensure_writable_bytes, append,
}
use ryan_network_library.Buffer.Layout.{
  IsValid, contents, Layout, length-Layout, Layout-IsValid, Layout-contents, IsValid-Layout,
  writable_bytes-Layout,
}

-- A length that survives the conversion to `int`.
pub int_as_size_small : (len : ℕ) → len < 2 ^ 31 → int_as_size len ≡ len
int_as_size_small len h = ground arith

abbrev zeros : ℕ → List ℕ
zeros n = replicate n 0

length-zeros : (n : ℕ) → length (zeros n) ≡ n
length-zeros n = length-replicate {A = ℕ} n 0

-- The storage grows at its end.
make_space_grow :
    {b : Buffer} {p c f : List ℕ} (len : ℕ)
    → Layout b p c f
    → len < 2 ^ 31
    → length p + length c + len < 2 ^ 62
    → length f + length p < len + 8
    → length f < len
    → (b' : Buffer) × (make_space len b ≡ some b') × Layout b' p c (f ++ zeros (len - length f))
unfolding make_space prependable_bytes
make_space_grow {b} {p} {c} {f} len l small fits short room =
    let grown : ℕ = b.writer_index + len in
    (
      record b { buffer = resize grown 0 b.buffer },
      ground (arith, int_as_size_small len small, length-Layout l),
      record {
        whole =
            rw (take_all grown b.buffer (omega (arith, length-Layout l)), ap (zeros) count, l.whole)
              (simp append_assoc);
        reader = l.reader;
        writer = l.writer;
        base = omega (arith, l.base, length-append f (zeros (len - length f)));
        size =
            omega (arith, length-append f (zeros (len - length f)), length-zeros (len - length f));
      },
    )
  where
    count : b.writer_index + len - length b.buffer ≡ len - length f
    count = omega (arith, length-Layout l)

-- The content moves to the front.
pub make_space_move :
    {b : Buffer} {p c f : List ℕ} (len n : ℕ)
    → Layout b p c f
    → int_as_size len ≡ n
    → n < 2 ^ 31
    → n + 8 ≤ length f + length p
    → (b' : Buffer) × (p' : List ℕ) × (f' : List ℕ) × (make_space len b ≡ some b')
      × (length p' ≡ 8)
      × (length p' + length f' ≡ length p + length f)
      × Layout b' p' c f'
unfolding make_space prependable_bytes
make_space_move {b} {p} {c} {f} len n l as_int small fits =
    let moved : List ℕ = take 8 b.buffer ++ (c ++ drop (8 + length c) b.buffer) in
    (
      record { buffer = moved; reader_index = 8; writer_index = 8 + length c },
      take 8 b.buffer,
      drop (8 + length c) b.buffer,
      ground (arith, length-Layout l, Layout-contents l),
      front,
      total,
      record {
        whole = refl;
        reader = sym front;
        writer = omega (arith, front);
        base = omega (arith, front);
        size = omega (arith, l.size, total);
      },
    )
  where
    front : length (take 8 b.buffer) ≡ 8
    front = omega (arith, length-Layout l, length-take 8 b.buffer)

    total : length (take 8 b.buffer) + length (drop (8 + length c) b.buffer) ≡ length p + length f
    total = omega (arith, front, length-Layout l, length-drop (8 + length c) b.buffer)

-- A request below 2 GiB: `MakeSpace` never faults, keeps the content, and gives the room.
pub make_space-Layout :
    {b : Buffer} {p c f : List ℕ} (len : ℕ)
    → Layout b p c f
    → len < 2 ^ 31
    → length p + length c + length f + len < 2 ^ 62
    → length f < len
    → (b' : Buffer) × (p' : List ℕ) × (f' : List ℕ) × (make_space len b ≡ some b')
      × (len ≤ length f')
      × (length p' + length f' ≤ length p + length f + len)
      × Layout b' p' c f'
make_space-Layout {b} {p} {c} {f} len l small fits room =
    elim (Bool-cases (ltb (length f + length p) (len + 8))) [
      | inl short ↦
          let (b', e, l') = make_space_grow len l small (omega arith) (ltb→lt _ _ short) room in
          (
            b',
            p,
            f ++ zeros (len - length f),
            e,
            omega (arith, length-append f (zeros (len - length f)), length-zeros (len - length f)),
            omega (arith, length-append f (zeros (len - length f)), length-zeros (len - length f)),
            l',
          )
      | inr long ↦
          let (b', p', f', e, front, g, l') =
            make_space_move len len l (int_as_size_small len small) small (ltb_false→le _ _ long) in
          (b', p', f', e, omega (arith, ltb_false→le _ _ long, front, g), omega (arith, g), l')
    ]

pub ensure_writable_bytes-Layout :
    {b : Buffer} {p c f : List ℕ} (len : ℕ)
    → Layout b p c f
    → len < 2 ^ 31
    → length p + length c + length f + len < 2 ^ 62
    → (b' : Buffer) × (p' : List ℕ) × (f' : List ℕ) × (ensure_writable_bytes len b ≡ some b')
      × (len ≤ length f')
      × (length p' + length f' ≤ length p + length f + len)
      × Layout b' p' c f'
unfolding ensure_writable_bytes
ensure_writable_bytes-Layout {b} {p} {c} {f} len l small fits =
    elim (Bool-cases (ltb (length f) len)) [
      | inl short ↦
          let (b', p', f', e, h, g, l') = make_space-Layout len l small fits (ltb→lt _ _ short) in
          (b', p', f', rw (writable_bytes-Layout l, short) e, h, g, l')
      | inr enough ↦ (b, p, f, rw (writable_bytes-Layout l, enough), ground arith, omega arith, l)
    ]

-- Writing over the free bytes.
pub store-Layout :
    {b : Buffer} {p c f : List ℕ} (bytes : List ℕ)
    → Layout b p c f
    → length bytes ≤ length f
    → copy_to b.buffer b.writer_index bytes ≡ some (p ++ (c ++ (bytes ++ drop (length bytes) f)))
store-Layout {b} {p} {c} {f} bytes l h =
    rw
      (
        l.whole,
        ← append_assoc p c f,
        copy_to-append b.writer_index (p ++ c) bytes f (omega (arith, l.writer, length-append p c))
            h,
      )
      (simp append_assoc)

pub written-Layout :
    {b : Buffer} {p c f : List ℕ} (bytes : List ℕ)
    → Layout b p c f
    → length bytes ≤ length f
    → Layout
        (record b {
          buffer = p ++ (c ++ (bytes ++ drop (length bytes) f));
          writer_index = b.writer_index + length bytes;
        })
        p
        (c ++ bytes)
        (drop (length bytes) f)
written-Layout {b} {p} {c} {f} bytes l h = record {
  whole = simp append_assoc;
  reader = l.reader;
  writer = omega (arith, l.writer, length-append c bytes);
  base = omega (arith, l.base, length-append c bytes, length-drop (length bytes) f);
  size = omega (arith, l.size, length-append c bytes, length-drop (length bytes) f);
}

pub append-Layout :
    {b : Buffer} {p c f : List ℕ} (bytes : List ℕ)
    → Layout b p c f
    → length bytes < 2 ^ 31
    → length p + length c + length f + length bytes < 2 ^ 62
    → (b' : Buffer) × (p' : List ℕ) × (f' : List ℕ) × (append bytes b ≡ some b')
      × (length p' + length f' ≤ length p + length f)
      × Layout b' p' (c ++ bytes) f'
unfolding append
append-Layout {b} {p} {c} {f} bytes l small fits =
    let (b', p', f', e, h, g, l') = ensure_writable_bytes-Layout (length bytes) l small fits in
    (
      record b' {
        buffer = p' ++ (c ++ (bytes ++ drop (length bytes) f'));
        writer_index = b'.writer_index + length bytes;
      },
      p',
      drop (length bytes) f',
      rw (e, store-Layout bytes l' h) (ground (arith, l'.writer, l'.size)),
      omega (arith, length-drop (length bytes) f'),
      written-Layout bytes l' h,
    )

-- Fewer than 2 ^ 31 bytes appended to a valid buffer whose storage stays below 2 ^ 62 bytes:
-- `Append` does not fault, the buffer stays valid, its content is the old content followed by the
-- bytes, and its storage grows by at most their number.
pub append_lem :
    (b : Buffer) (bytes : List ℕ)
    → IsValid b
    → length bytes < 2 ^ 31
    → length b.buffer + length bytes < 2 ^ 62
    → (b' : Buffer) × (append bytes b ≡ some b')
      × IsValid b'
      × (contents b' ≡ contents b ++ bytes)
      × (length b'.buffer ≤ length b.buffer + length bytes)
append_lem b bytes v small fits =
    let before = IsValid-Layout v in
    let (b', p', f', e, g, l) =
      append-Layout bytes before small (omega (arith, length-Layout before)) in
    (
      b',
      e,
      Layout-IsValid l,
      Layout-contents l,
      omega (arith, length-Layout before, length-Layout l, length-append (contents b) bytes),
    )
