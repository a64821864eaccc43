-- ===== src/Buffer/Search.antt =====
-- FindCRLF and FindEOL of buffer/buffer.h. `std::search` and `memchr` are the library's: the first
-- place at which the pattern stands. A found pointer is its index in `buffer_`.
use ryan_network_library.Prelude.{
  ℕ, ◌+◌, ◌≡◌, refl, ap, ◌∙◌, ◌&&◌, Option, none, some, List, [], ◌∷◌, ◌++◌, arith, length,
  length-append, leb, ◌==◌, if◌then◌else◌, sub64, ◌>>◌, check, drop-append_add, slice,
}
use ryan_network_library.Buffer.{Buffer, readable_bytes, retrieve_until}
use ryan_network_library.Buffer.Layout.{readable_bytes-sub, length-contents, IsValid, contents}
use ryan_network_library.Buffer.Queue.{retrieve_lem}

-- The first "\r\n" of the bytes that begin at index `i`.
unfoldable pub search_crlf : ℕ → List ℕ → Option ℕ
search_crlf i [] = none
search_crlf i (x ∷ []) = none
search_crlf i (x ∷ (y ∷ ys)) =
    let later = search_crlf (i + 1) (y ∷ ys) in if (x == 13) && (y == 10) then some i else later

-- The first "\n".
unfoldable pub search_eol : ℕ → List ℕ → Option ℕ
search_eol i [] = none
search_eol i (x ∷ xs) = let later = search_eol (i + 1) xs in if x == 10 then some i else later

-- `none` is the null pointer.
unfoldable pub find_crlf : Buffer → Option ℕ
find_crlf b = search_crlf b.reader_index (slice b.reader_index (readable_bytes b) b.buffer)

unfoldable pub find_eol : Buffer → Option ℕ
find_eol b = search_eol b.reader_index (slice b.reader_index (readable_bytes b) b.buffer)

-- `FindCRLF(start)` and `FindEOL(start)`, with their assertions.
unfoldable pub find_crlf_from : ℕ → Buffer → Option (Option ℕ)
find_crlf_from start b = do
  check (leb b.reader_index start)
  check (leb start b.writer_index)
  some (search_crlf start (slice start (sub64 b.writer_index start) b.buffer))

unfoldable pub find_eol_from : ℕ → Buffer → Option (Option ℕ)
find_eol_from start b = do
  check (leb b.reader_index start)
  check (leb start b.writer_index)
  some (search_eol start (slice start (sub64 b.writer_index start) b.buffer))

-- A stretch with no "\r\n" in it.
abbrev pub NoCrlf : List ℕ → Type 0
NoCrlf [] = Unit {0}
NoCrlf (x ∷ []) = Unit {0}
NoCrlf (x ∷ (y ∷ ys)) = ¬ ((x ≡ 13) × (y ≡ 10)) × NoCrlf (y ∷ ys)

search_crlf-line :
    (i j : ℕ) (line rest : List ℕ)
    → j ≡ i + length line
    → NoCrlf (line ++ (13 ∷ []))
    → search_crlf i (line ++ (13 ∷ (10 ∷ rest))) ≡ some j
unfolding search_crlf
search_crlf-line i j [] rest e h = ground arith
search_crlf-line i j (x ∷ []) rest e h = ground (arith, search_crlf-line (i + 1) j [] rest)
search_crlf-line i j (x ∷ (y ∷ line)) rest e h =
    ground (arith, search_crlf-line (i + 1) j (y ∷ line) rest)

search_crlf-none : (i : ℕ) (xs : List ℕ) → NoCrlf xs → search_crlf i xs ≡ none
unfolding search_crlf
search_crlf-none i [] h = refl
search_crlf-none i (x ∷ []) h = refl
search_crlf-none i (x ∷ (y ∷ ys)) h = ground (arith, search_crlf-none (i + 1) (y ∷ ys))

-- `FindCRLF` on a valid buffer. Where the content is a line, "\r\n" and a rest, and no "\r\n"
-- begins in the line, it points just behind the line, and `RetrieveUntil` two bytes later leaves the
-- rest. Where no "\r\n" stands in the content, it is the null pointer.
pub find_crlf_lem :
    (b : Buffer)
    → IsValid b
    → ((line rest : List ℕ)
        → contents b ≡ line ++ (13 ∷ (10 ∷ rest))
        → NoCrlf (line ++ (13 ∷ []))
        → (find_crlf b ≡ some (b.reader_index + length line))
          × (contents (retrieve_until (b.reader_index + length line + 2) b) ≡ rest))
      × (NoCrlf (contents b) → find_crlf b ≡ none)
unfolding find_crlf retrieve_until
find_crlf_lem b v = (
  λ line rest e h. (
    rw (same, e) (search_crlf-line b.reader_index (b.reader_index + length line) line rest refl h),
    (retrieve_lem (sub64 (b.reader_index + length line + 2) b.reader_index) b v).1
        ∙ rw (distance line rest e, e)
            (drop-append_add (length line + 2) 2 line (13 ∷ (10 ∷ rest)) refl),
  ),
  λ h. rw same (search_crlf-none b.reader_index (contents b) h),
)
  where
    same : slice b.reader_index (readable_bytes b) b.buffer ≡ contents b
    same = ap (λ n. slice b.reader_index n b.buffer) (readable_bytes-sub v)

    distance :
        (line rest : List ℕ)
        → contents b ≡ line ++ (13 ∷ (10 ∷ rest))
        → sub64 (b.reader_index + length line + 2) b.reader_index ≡ length line + 2
    distance line rest e =
        omega (arith, length-contents v, ap length e, length-append line (13 ∷ (10 ∷ rest)))
