-- ===== src/Http/RoundTrip.antt =====
-- The parser of http/http_context.cc on a whole request: what it reads from a well-formed text, and
-- that it always ends.
use ryan_network_library.Prelude.{
  ℕ, zero, suc, ◌+◌, ◌<◌, ◌≡◌, ◌∙◌, Bool, true, false, some, List, [], ◌∷◌, ◌++◌, arith, length,
  ◌==◌, add64,
}
use ryan_network_library.Buffer.{Buffer, retrieve_until}
use ryan_network_library.Buffer.Layout.{IsValid, contents}
use ryan_network_library.Http.Request.{
  HttpRequest, Method, is_valid_method, add_header, put_header, skip_spaces, cut_spaces,
}
use ryan_network_library.Http.Context.{
  expect_request_line, expect_headers, got_all, find, process_request_line, parse_loop, parse_round,
  parse_loop-more, parse_loop-stop, more, stop, parse_request,
}
use ryan_network_library.Http.Lines.{
  Lacks, find_ne_end, take-find, drop-find, Lacks-append, Line, first-Line, request_line, with_line,
  request_line-Lacks, IsQuery, process_request_line_lem,
}

abbrev pub Header : Type 0
Header = List ℕ × List ℕ

-- "field: value".
unfoldable pub header_line : Header → List ℕ
header_line (field, value) = field ++ (b':' ∷ (b' ' ∷ value))

-- The header lines, the empty line, and what follows.
unfoldable pub header_lines : List Header → List ℕ → List ℕ
header_lines [] rest = 13 ∷ (10 ∷ rest)
header_lines (h ∷ hs) rest = header_line h ++ (13 ∷ (10 ∷ header_lines hs rest))

-- The whole text, in HTTP/1.1.
unfoldable pub request_text : Method → List ℕ → List ℕ → List Header → List ℕ → List ℕ
request_text m path query hs rest = request_line m path query ++ (13 ∷ (10 ∷ header_lines hs rest))

-- The headers put one after the other.
unfoldable pub with_headers : List Header → HttpRequest → HttpRequest
with_headers [] r = r
with_headers ((field, value) ∷ hs) r =
    with_headers hs (record r { headers = put_header field value r.headers })

-- A field without a colon and a value without white space at its ends, both on one line.
pub record IsHeader (h : Header) : Type 0 where
  pub no_colon : Lacks b':' h.0
  pub field_line : Lacks 13 h.0
  pub value_line : Lacks 13 h.1
  pub trimmed : cut_spaces (skip_spaces h.1) ≡ h.1

abbrev pub AllHeaders : List Header → Type 0
AllHeaders [] = Unit {0}
AllHeaders (h ∷ hs) = IsHeader h × AllHeaders hs

add_header-header_line :
    (field value : List ℕ) (r : HttpRequest)
    → IsHeader (field, value)
    → add_header (header_line (field, value)) (find b':' (header_line (field, value))) r
      ≡ record r { headers = put_header field value r.headers }
unfolding add_header header_line
add_header-header_line field value r h = rw (
  take-find b':' field (b' ' ∷ value) h.no_colon,
  drop-find b':' field (b' ' ∷ value) h.no_colon,
  h.trimmed,
)

header_line-Lacks : (h : Header) → IsHeader h → Lacks 13 (header_line h)
unfolding header_line
header_line-Lacks (field, value) h =
    Lacks-append 13 field (b':' ∷ (b' ' ∷ value)) h.field_line
      (omega arith, (omega arith, h.value_line))

header_line-find :
    (h : Header) → IsHeader h → (find b':' (header_line h) == length (header_line h)) ≡ false
unfolding header_line
header_line-find (field, value) h = find_ne_end b':' field (b' ' ∷ value) h.no_colon

end_round :
    (now : ℕ) (ok : Bool) (r : HttpRequest) (b : Buffer) {rest : List ℕ} (line : Line b [] rest)
    → parse_round expect_headers now ok (record { state = expect_headers; request = r }) b
      ≡ stop (record {
        ok = ok;
        context = record { state = got_all; request = r };
        buffer = retrieve_until (add64 line.end 2) b;
      })
unfolding parse_round
end_round now ok r b line = rw (line.found, line.text)

header_round_lem :
    (field value : List ℕ) (now : ℕ) (ok : Bool) (r : HttpRequest) (b : Buffer) {rest : List ℕ}
    (line : Line b (header_line (field, value)) rest)
    → IsHeader (field, value)
    → parse_round expect_headers now ok (record { state = expect_headers; request = r }) b
      ≡ more ok
          (record {
            state = expect_headers;
            request = record r { headers = put_header field value r.headers };
          })
          (retrieve_until (add64 line.end 2) b)
unfolding parse_round
header_round_lem field value now ok r b line h = rw (
  line.found,
  line.text,
  header_line-find (field, value) h,
  add_header-header_line field value r h,
)

pub request_round_lem :
    (m : Method) (path query : List ℕ) (now : ℕ) (r : HttpRequest) (b : Buffer) {rest : List ℕ}
    (line : Line b (request_line m path query) rest)
    → process_request_line (request_line m path query) r ≡ (true, with_line m path query r)
    → parse_round expect_request_line now false
        (record { state = expect_request_line; request = r })
        b
      ≡ more true
          (record {
            state = expect_headers;
            request = record (with_line m path query r) { receive_time = now };
          })
          (retrieve_until (add64 line.end 2) b)
unfolding parse_round
request_round_lem m path query now r b line e = rw (line.found, line.text, e)

parse_headers :
    (hs : List Header) (fuel now : ℕ) (ok : Bool) (r : HttpRequest) (b : Buffer) (rest : List ℕ)
    → IsValid b
    → AllHeaders hs
    → length hs < fuel
    → contents b ≡ header_lines hs rest
    → (b' : Buffer) × (parse_loop fuel now ok (record { state = expect_headers; request = r }) b
        ≡ some (record {
          ok = ok;
          context = record { state = got_all; request = with_headers hs r };
          buffer = b';
        }))
      × IsValid b'
      × (contents b' ≡ rest)
unfolding header_lines with_headers
parse_headers hs zero now ok r b rest v all enough e = absurd (omega arith)
parse_headers [] (suc fuel) now ok r b rest v all enough e =
    let line = first-Line b [] rest v tt e in
    (
      retrieve_until (add64 line.end 2) b,
      parse_loop-stop fuel now ok _ b (end_round now ok r b line),
      line.valid,
      line.left,
    )
parse_headers ((field, value) ∷ hs) (suc fuel) now ok r b rest v all enough e =
    let line =
      first-Line b (header_line (field, value)) (header_lines hs rest) v
        (header_line-Lacks (field, value) all.0) e in
    let (b', e', v', k) =
      parse_headers hs fuel now ok (record r { headers = put_header field value r.headers })
        (retrieve_until (add64 line.end 2) b) rest line.valid all.1 (omega arith) line.left in
    (
      b',
      parse_loop-more fuel now ok _ b (header_round_lem field value now ok r b line all.0) ∙ e',
      v',
      k,
    )

-- A valid buffer that holds a request in HTTP/1.1 (a known method; a target with no space, no line
-- end, and no question mark but the query's first byte; well-formed headers) and more bytes behind
-- it. With more fuel than two rounds and a round for each header, `ParseRequest` in a context that
-- expects a request line returns true with the whole request: method, path, query, version, the
-- time, the headers put in order. The bytes behind the request are left in the buffer.
pub parse_request_lem :
    (m : Method) (path query : List ℕ) (hs : List Header) (rest : List ℕ) (fuel now : ℕ)
    (r : HttpRequest) (b : Buffer)
    → IsValid b
    → contents b ≡ request_text m path query hs rest
    → is_valid_method m ≡ true
    → Lacks b' ' (path ++ query)
    → Lacks 13 (path ++ query)
    → Lacks b'?' path
    → IsQuery query
    → AllHeaders hs
    → length hs + 1 < fuel
    → (b' : Buffer) × (parse_request fuel now
          (record { state = expect_request_line; request = r })
          b
        ≡ some (record {
          ok = true;
          context = record {
            state = got_all;
            request = with_headers hs (record (with_line m path query r) { receive_time = now });
          };
          buffer = b';
        }))
      × IsValid b'
      × (contents b' ≡ rest)
unfolding parse_request request_text
parse_request_lem m path query hs rest zero now r b v e known spaces ends marks q all enough =
    absurd (omega arith)
parse_request_lem m path query hs rest (suc fuel) now r b v e known spaces ends marks q all enough =
    let line =
      first-Line b (request_line m path query) (header_lines hs rest) v
        (request_line-Lacks m path query ends) e in
    let (b', e', v', k) =
      parse_headers hs fuel now true (record (with_line m path query r) { receive_time = now })
        (retrieve_until (add64 line.end 2) b) rest line.valid all (omega arith) line.left in
    (
      b',
      parse_loop-more fuel now false _ b (
            request_round_lem m path query now r b line
              (process_request_line_lem m path query r known spaces marks q))
          ∙ e',
      v',
      k,
    )
