-- ===== src/Buffer/Fd.antt =====
-- ReadFd and WriteFd of buffer/buffer.cc. The system calls are parameters: what `readv` and
-- `write` returned, with the bytes that came or went.
use ryan_network_library.Prelude.{
  ℕ, ◌+◌, ◌^◌, ◌≤◌, ◌<◌, ◌≡◌, ◌∙◌, inl, inr, Option, some, List, [], ◌++◌, append_assoc, arith,
  length, take, drop, length-append, take-append-drop, length-take, length-drop, ltb, leb,
  if◌then◌else◌, le→leb, leb_false→lt, leb→le, lt→leb_false, Bool-cases, add64, ◌>>=◌, copy_to,
}
use ryan_network_library.Buffer.{Buffer, append, writable_bytes, content_to_string}
use ryan_network_library.Buffer.Layout.{
  IsValid, contents, IsValid-Layout, Layout-IsValid, Layout-contents, length-Layout,
  writable_bytes-Layout,
}
use ryan_network_library.Buffer.Space.{written-Layout, store-Layout, append-Layout}

-- What `readv` did: it delivered bytes (none at the end of the stream), or failed with an `errno`.
pub data Readv : Type 0 where
  received : List ℕ → Readv
  failed : ℕ → Readv

-- The result of `ReadFd`: the `ssize_t` that it returns, or -1 with `*saveErrno`.
pub data ReadResult : Type 0 where
  count : ℕ → ReadResult
  error : ℕ → ReadResult

-- `sizeof(extrabuf)`.
abbrev pub extra_size : ℕ
extra_size = 65536

-- The most that `readv` delivers: the writable bytes, and the stack buffer where those are fewer.
unfoldable pub capacity : Buffer → ℕ
capacity b =
    if ltb (writable_bytes b) extra_size then writable_bytes b + extra_size else writable_bytes b

-- `readv` fills the writable bytes first, then `extrabuf`.
unfoldable pub read_fd : Readv → Buffer → Option (ReadResult × Buffer)
read_fd (failed errno) b = some (error errno, b)
read_fd (received bytes) b =
    if leb (length bytes) (writable_bytes b)
    then (do
      stored ← copy_to b.buffer b.writer_index bytes
      some (
        count (length bytes),
        record b { buffer = stored; writer_index = add64 b.writer_index (length bytes) },
      ))
    else (do
      stored ← copy_to b.buffer b.writer_index (take (writable_bytes b) bytes)
      b' ←
          append (drop (writable_bytes b) bytes)
            (record b { buffer = stored; writer_index = length stored })
      some (count (length bytes), b'))

-- What `write` took: a number of bytes from the front, or a failure with `errno`.
pub data Write : Type 0 where
  wrote : ℕ → Write
  refused : ℕ → Write

-- `WriteFd` passes the readable bytes to `write`; the first component is what the socket took.
unfoldable pub write_fd : Write → Buffer → Option (List ℕ × Write)
write_fd (wrote n) b = do bytes ← content_to_string b; some (take n bytes, wrote n)
write_fd (refused errno) b = do bytes ← content_to_string b; some ([], refused errno)

read_fd_fits :
    (bytes : List ℕ) (b : Buffer)
    → IsValid b
    → length bytes ≤ writable_bytes b
    → (b' : Buffer) × (read_fd (received bytes) b ≡ some (count (length bytes), b'))
      × IsValid b'
      × (contents b' ≡ contents b ++ bytes)
unfolding read_fd
read_fd_fits bytes b v room =
    let l = IsValid-Layout v in
    let h : length bytes ≤ length (drop b.writer_index b.buffer) =
      omega (arith, writable_bytes-Layout l) in
    let l' = written-Layout bytes l h in
    (
      _,
      rw (le→leb (length bytes) (writable_bytes b) room, store-Layout bytes l h)
          (ground (arith, l.size, length-Layout l)),
      Layout-IsValid l',
      Layout-contents l',
    )

read_fd_overflow :
    (bytes : List ℕ) (b : Buffer) (stored : List ℕ) {k : ℕ} (b' : Buffer)
    → writable_bytes b < length bytes
    → copy_to b.buffer b.writer_index (take (writable_bytes b) bytes) ≡ some stored
    → length stored ≡ k
    → append (drop (writable_bytes b) bytes) (record b { buffer = stored; writer_index = k })
      ≡ some b'
    → read_fd (received bytes) b ≡ some (count (length bytes), b')
unfolding read_fd
read_fd_overflow bytes b stored b' spills e n e' =
    rw (lt→leb_false (length bytes) (writable_bytes b) spills, e, n, e')

read_fd_spills :
    (bytes : List ℕ) (b : Buffer)
    → IsValid b
    → length b.buffer < 2 ^ 61
    → writable_bytes b < length bytes
    → length bytes ≤ writable_bytes b + extra_size
    → (b' : Buffer) × (read_fd (received bytes) b ≡ some (count (length bytes), b'))
      × IsValid b'
      × (contents b' ≡ contents b ++ bytes)
unfolding read_fd
read_fd_spills bytes b v small spills fits =
    let l = IsValid-Layout v in
    let w : ℕ = writable_bytes b in
    let n : length (take w bytes) ≡ length (drop b.writer_index b.buffer) =
      omega (arith, writable_bytes-Layout l, length-take w bytes) in
    let l' = written-Layout (take w bytes) l (omega (arith, n)) in
    let all_written : length (
          take b.reader_index b.buffer
          ++ (contents b
              ++ (take w bytes ++ drop (length (take w bytes)) (drop b.writer_index b.buffer))))
        ≡ b.writer_index + length (take w bytes) =
      omega (
        arith,
        n,
        l.writer,
        length-Layout l',
        length-append (contents b) (take w bytes),
        length-drop (length (take w bytes)) (drop b.writer_index b.buffer),
      ) in
    let (b', p', f', e, _, l'') =
      append-Layout (drop w bytes) l' (omega (arith, length-drop w bytes)) (
        omega (
          arith,
          n,
          length-Layout l,
          length-append (contents b) (take w bytes),
          length-drop w bytes,
          length-drop (length (take w bytes)) (drop b.writer_index b.buffer),
        )) in
    (
      b',
      read_fd_overflow bytes b _ b' spills (store-Layout (take w bytes) l (omega (arith, n)))
          all_written e,
      Layout-IsValid l'',
      Layout-contents l'' ∙ regroup,
    )
  where
    regroup :
        (contents b ++ take (writable_bytes b) bytes) ++ drop (writable_bytes b) bytes
        ≡ contents b ++ bytes
    regroup = rw (append_assoc, take-append-drop (writable_bytes b) bytes)

-- `ReadFd` on a valid buffer with a storage below 2 ^ 61 bytes, where `readv` delivers no more than
-- its vectors hold: no fault, the returned count is the number of bytes, the content grows by
-- exactly these bytes, and the buffer stays valid.
pub read_fd_lem :
    (bytes : List ℕ) (b : Buffer)
    → IsValid b
    → length b.buffer < 2 ^ 61
    → length bytes ≤ capacity b
    → (b' : Buffer) × (read_fd (received bytes) b ≡ some (count (length bytes), b'))
      × IsValid b'
      × (contents b' ≡ contents b ++ bytes)
unfolding capacity
read_fd_lem bytes b v small fits = elim (Bool-cases (leb (length bytes) (writable_bytes b))) [
  | inl room ↦ read_fd_fits bytes b v (leb→le _ _ room)
  | inr spills ↦
      read_fd_spills bytes b v small (leb_false→lt _ _ spills)
        (ground (arith, leb_false→lt _ _ spills))
]
