-- ===== src/Buffer/Ints.antt =====
-- The integers of buffer/buffer.h in network order, with net/endian.h. How the machine lays an integer
-- out in memory, and `htobe`/`betoh`, are a parameter. A signed value is its bit pattern.
use ryan_network_library.Prelude.{
  ℕ, zero, suc, ◌+◌, ◌-◌, ◌/◌, ◌%◌, ◌^◌, ◌≤◌, ◌<◌, ◌≡◌, refl, sym, ap, ◌∙◌, Option, none, some,
  List, [], ◌∷◌, ◌++◌, append-nil, arith, length, get_elem?, take, drop, length-append, leb, le→leb,
  ◌>>=◌, ◌>>◌, check, take-append, drop-append, take-take,
}
use ryan_network_library.Buffer.{Buffer, readable_bytes, read_at, retrieve, append, prepend}
use ryan_network_library.Buffer.Layout.{IsValid, contents, length-contents, readable_bytes-sub}
use ryan_network_library.Buffer.Space.{append_lem}
use ryan_network_library.Buffer.Queue.{retrieve_lem}

-- The `w` bytes of `x`, most significant first.
unfoldable pub be_bytes : ℕ → ℕ → List ℕ
be_bytes zero x = []
be_bytes (suc w) x = be_bytes w (x / 256) ++ (x % 256 ∷ [])

pub length-be_bytes : (w x : ℕ) → length (be_bytes w x) ≡ w
unfolding be_bytes
length-be_bytes zero x = refl
length-be_bytes (suc w) x =
    omega (arith, length-append (be_bytes w (x / 256)) (x % 256 ∷ []), length-be_bytes w (x / 256))

-- The machine, for unsigned integers of `w` bytes: their bytes in memory and back, `htobe` and
-- `betoh`. What endian(3) promises: `htobe` gives the integer whose memory holds the bytes of `x`
-- most significant first, and `betoh` undoes it.
pub record Endian : Type 0 where
  pub host_bytes : ℕ → ℕ → List ℕ
  pub host_value : ℕ → List ℕ → ℕ
  pub htobe : ℕ → ℕ → ℕ
  pub betoh : ℕ → ℕ → ℕ
  pub value_of_bytes : (w x : ℕ) → x < 256 ^ w → host_value w (host_bytes w x) ≡ x
  pub htobe_lt : (w x : ℕ) → x < 256 ^ w → htobe w x < 256 ^ w
  pub htobe_memory : (w x : ℕ) → x < 256 ^ w → host_bytes w (htobe w x) ≡ be_bytes w x
  pub betoh-htobe : (w x : ℕ) → x < 256 ^ w → betoh w (htobe w x) ≡ x
  pub one_byte : (x : ℕ) → x < 256 ^ 1 → host_bytes 1 x ≡ x ∷ []

-- What stands in front of the content.
read_front :
    (n : ℕ) (b : Buffer) (bytes rest : List ℕ)
    → IsValid b
    → n ≡ length bytes
    → contents b ≡ bytes ++ rest
    → (n ≤ readable_bytes b) × (read_at b.buffer b.reader_index n ≡ some bytes)
read_front n b bytes rest v k e = (room, ground (arith, room, readable_bytes-sub v, front))
  where
    room : n ≤ readable_bytes b
    room =
        omega
          (arith, readable_bytes-sub v, length-contents v, ap length e, length-append bytes rest)

    front : take n (drop b.reader_index b.buffer) ≡ bytes
    front =
        sym (
          take-take n (b.writer_index - b.reader_index) (drop b.reader_index b.buffer)
            (omega (arith, room, readable_bytes-sub v)))
        ∙ ap (take n) e
        ∙ take-append n bytes rest k

module _ (m : Endian) where
  open m use {
    host_bytes, host_value, htobe, betoh, value_of_bytes, htobe_lt, htobe_memory, betoh-htobe,
    one_byte,
  }

  -- AppendInt64, AppendInt32 and AppendInt16 at `w` = 8, 4 and 2.
  unfoldable pub append_int : ℕ → ℕ → Buffer → Option Buffer
  append_int w x b = let be = htobe w x in append (host_bytes w be) b

  unfoldable pub append_int8 : ℕ → Buffer → Option Buffer
  append_int8 x b = append (host_bytes 1 x) b

  -- PrependInt64, PrependInt32 and PrependInt16.
  unfoldable pub prepend_int : ℕ → ℕ → Buffer → Option Buffer
  prepend_int w x b = let be = htobe w x in prepend (host_bytes w be) b

  unfoldable pub prepend_int8 : ℕ → Buffer → Option Buffer
  prepend_int8 x b = prepend (host_bytes 1 x) b

  -- PeekInt64, PeekInt32 and PeekInt16.
  unfoldable pub peek_int : ℕ → Buffer → Option ℕ
  peek_int w b = do
    check (leb w (readable_bytes b))
    bytes ← read_at b.buffer b.reader_index w
    some (betoh w (host_value w bytes))

  -- `*Peek()` reads one byte.
  unfoldable pub peek_int8 : Buffer → Option ℕ
  peek_int8 b = do check (leb 1 (readable_bytes b)); get_elem? b.buffer b.reader_index

  -- ReadInt64, ReadInt32 and ReadInt16.
  unfoldable pub read_int : ℕ → Buffer → Option (ℕ × Buffer)
  read_int w b = do result ← peek_int w b; some (result, retrieve w b)

  unfoldable pub read_int8 : Buffer → Option (ℕ × Buffer)
  read_int8 b = do result ← peek_int8 b; some (result, retrieve 1 b)

  peek_int-be :
      (w x : ℕ) (b : Buffer) (rest : List ℕ)
      → IsValid b
      → x < 256 ^ w
      → contents b ≡ be_bytes w x ++ rest
      → peek_int w b ≡ some x
  unfolding peek_int
  peek_int-be w x b rest v h e =
      let (room, bytes) = read_front w b (be_bytes w x) rest v (sym (length-be_bytes w x)) e in
      rw (
        le→leb w (readable_bytes b) room,
        bytes,
        ← htobe_memory w x h,
        value_of_bytes w (htobe w x) (htobe_lt w x h),
        betoh-htobe w x h,
      )

  -- `ReadInt` on a valid buffer whose content begins with the `w` bytes of `x`, most significant
  -- first, returns `x` and leaves the rest; with fewer than `w` readable bytes its assertion fails.
  pub read_int_lem :
      (w x : ℕ) (b : Buffer)
      → IsValid b
      → x < 256 ^ w
      → ((rest : List ℕ)
          → contents b ≡ be_bytes w x ++ rest
          → (b' : Buffer) × (read_int w b ≡ some (x, b')) × IsValid b' × (contents b' ≡ rest))
        × (length (contents b) < w → read_int w b ≡ none)
  unfolding read_int peek_int
  read_int_lem w x b v h = (
    λ rest e.
        let (v', c, _) = retrieve_lem w b v in
        (
          retrieve w b,
          rw (peek_int-be w x b rest v h e),
          v',
          c ∙ rw e (drop-append w (be_bytes w x) rest (sym (length-be_bytes w x))),
        ),
    λ short. ground (arith, readable_bytes-sub v, length-contents v),
  )

  -- `AppendInt` of a `w`-byte integer to an empty valid buffer, then `ReadInt`: neither faults, the
  -- bytes between are those of `x`, most significant first, and `x` comes back.
  pub append_int-read_int :
      (w x : ℕ) (b : Buffer)
      → IsValid b
      → x < 256 ^ w
      → w < 2 ^ 31
      → length b.buffer + w < 2 ^ 62
      → contents b ≡ []
      → (b' : Buffer) × (b'' : Buffer) × (append_int w x b ≡ some b')
        × (contents b' ≡ be_bytes w x)
        × (read_int w b' ≡ some (x, b''))
        × (contents b'' ≡ [])
  unfolding append_int
  append_int-read_int w x b v h small fits empty =
      let n : length (host_bytes w (htobe w x)) ≡ w =
        ap length (htobe_memory w x h) ∙ length-be_bytes w x in
      let (b', e, v', c, _) =
        append_lem b (host_bytes w (htobe w x)) v (omega (arith, n)) (omega (arith, n)) in
      let c' : contents b' ≡ be_bytes w x = c ∙ rw (empty, htobe_memory w x h) in
      let (b'', e', _, c'') =
        (read_int_lem w x b' v' h).0 [] (c' ∙ sym (append-nil (be_bytes w x))) in
      (b', b'', e, c', e', c'')
