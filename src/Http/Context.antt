-- ===== src/Http/Context.antt =====
-- http/http_context.h and http_context.cc: the parser of requests, a state machine over the lines of
-- the buffer. The loop takes fuel; `none` means that it goes on for ever or that the fuel ran out.
use ryan_network_library.Prelude.{
  ℕ, zero, suc, ◌+◌, ◌≡◌, refl, Bool, true, false, not, ◌&&◌, Option, none, some, List, [], ◌∷◌,
  length, take, drop, get_or, ◌==◌, if◌then◌else◌, add64, sub64, slice,
}
use ryan_network_library.Buffer.{Buffer, retrieve_until}
use ryan_network_library.Buffer.Search.{find_crlf}
use ryan_network_library.Http.Request.{
  HttpRequest, http10, http11, new_request, set_method, add_header, bytes_eq,
}

pub data ParseState : Type 0 where
  expect_request_line expect_headers expect_body got_all : ParseState

pub record HttpContext : Type 0 where
  pub state : ParseState
  pub request : HttpRequest

unfoldable pub new_context : HttpContext
new_context = record { state = expect_request_line; request = new_request }

-- `Reset` swaps the request with a new one.
unfoldable pub reset : HttpContext → HttpContext
reset c = new_context

-- `std::find`: the place of the first `c`, the end where there is none.
abbrev pub find : ℕ → List ℕ → ℕ
find c [] = 0
find c (x ∷ xs) = if x == c then 0 else suc (find c xs)

-- The path, and from a question mark on the query.
unfoldable pub set_target : List ℕ → HttpRequest → HttpRequest
set_target target r =
    let question = find b'?' target in
    if question == length target
    then record r { path = target }
    else record r { path = take question target; query = drop question target }

abbrev pub http1_text : List ℕ
http1_text = b'H' ∷ b'T' ∷ b'T' ∷ b'P' ∷ b'/' ∷ b'1' ∷ b'.' ∷ []

-- The version, of eight bytes.
unfoldable pub set_version : List ℕ → HttpRequest → Bool × HttpRequest
set_version text r =
    if (length text == 8) && bytes_eq (take 7 text) http1_text
    then (if get_or text 7 0 == b'1'
        then (true, record r { version = http11 })
        else (if get_or text 7 0 == b'0'
            then (true, record r { version = http10 })
            else (false, r)))
    else (false, r)

-- `ProcessRequestLine`: whether it succeeded, and the request, which a failure may leave half set.
unfoldable pub process_request_line : List ℕ → HttpRequest → Bool × HttpRequest
process_request_line line r =
    let space = find b' ' line in
    let (known, r') = set_method (take space line) r in
    let rest = drop (space + 1) line in
    let space' = find b' ' rest in
    if space == length line
    then (false, r)
    else (if not known
        then (false, r')
        else (if space' == length rest
            then (false, r')
            else set_version (drop (space' + 1) rest) (set_target (take space' rest) r')))

-- A line ends at its "\r\n".
abbrev pub line_to : ℕ → Buffer → List ℕ
line_to crlf b = slice b.reader_index (sub64 crlf b.reader_index) b.buffer

pub record Parsed : Type 0 where
  pub ok : Bool
  pub context : HttpContext
  pub buffer : Buffer

-- What a round of the loop leads to: the next round, or the end with `hasMore` false.
pub data Round : Type 0 where
  more : Bool → HttpContext → Buffer → Round
  stop : Parsed → Round

-- The round that expects a request line; the option is the place of the next "\r\n".
unfoldable pub request_round : Option ℕ → ℕ → Bool → HttpContext → Buffer → Round
request_round none now ok c b = stop (record { ok = ok; context = c; buffer = b })
request_round (some crlf) now ok c b =
    let (ok', r) = process_request_line (line_to crlf b) c.request in
    if ok'
    then more true (record { state = expect_headers; request = record r { receive_time = now } })
        (retrieve_until (add64 crlf 2) b)
    else stop (record { ok = false; context = record c { request = r }; buffer = b })

-- The round that expects a header: a line without a colon ends the headers.
unfoldable pub header_round : Option ℕ → Bool → HttpContext → Buffer → Round
header_round none ok c b = stop (record { ok = ok; context = c; buffer = b })
header_round (some crlf) ok c b =
    let colon = find b':' (line_to crlf b) in
    if colon == length (line_to crlf b)
    then stop (record {
      ok = ok;
      context = record c { state = got_all };
      buffer = retrieve_until (add64 crlf 2) b;
    })
    else more ok (record c { request = add_header (line_to crlf b) colon c.request })
        (retrieve_until (add64 crlf 2) b)

unfoldable pub parse_round : ParseState → ℕ → Bool → HttpContext → Buffer → Round
unfolding request_round header_round
parse_round expect_request_line now ok c b = request_round (find_crlf b) now ok c b
parse_round expect_headers now ok c b = header_round (find_crlf b) ok c b
parse_round expect_body now ok c b = more ok c b
parse_round got_all now ok c b = more ok c b

-- `while (hasMore)`.
unfoldable pub parse_loop : ℕ → ℕ → Bool → HttpContext → Buffer → Option Parsed
parse_loop zero now ok c b = none
parse_loop (suc fuel) now ok c b = elim (parse_round c.state now ok c b) [
  | more ok' c' b' ↦ parse_loop fuel now ok' c' b'
  | stop p ↦ some p
]

-- `ParseRequest`.
unfoldable pub parse_request : ℕ → ℕ → HttpContext → Buffer → Option Parsed
parse_request fuel now c b = parse_loop fuel now false c b

pub parse_loop-more :
    (fuel now : ℕ) (ok : Bool) (c : HttpContext) (b : Buffer) {ok' : Bool} {c' : HttpContext}
    {b' : Buffer}
    → parse_round c.state now ok c b ≡ more ok' c' b'
    → parse_loop (suc fuel) now ok c b ≡ parse_loop fuel now ok' c' b'
unfolding parse_loop
parse_loop-more fuel now ok c b e = rw (e, parse_loop)

pub parse_loop-stop :
    (fuel now : ℕ) (ok : Bool) (c : HttpContext) (b : Buffer) {p : Parsed}
    → parse_round c.state now ok c b ≡ stop p
    → parse_loop (suc fuel) now ok c b ≡ some p
unfolding parse_loop
parse_loop-stop fuel now ok c b e = rw (e, parse_loop)

loops :
    (fuel now : ℕ) (ok : Bool) (r : HttpRequest) (b : Buffer)
    → parse_loop fuel now ok (record { state = got_all; request = r }) b ≡ none
unfolding parse_loop parse_round
loops zero now ok r b = refl
loops (suc fuel) now ok r b = loops fuel now ok r b

-- A context that has its request is parsed no further: the loop does not end, whatever the fuel.
pub parse_request_got_all :
    (fuel now : ℕ) (c : HttpContext) (b : Buffer)
    → c.state ≡ got_all
    → parse_request fuel now c b ≡ none
unfolding parse_request
parse_request_got_all fuel now c b e = rw e (loops fuel now false c.request b)
