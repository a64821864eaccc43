-- ===== src/Http/Server.antt =====
-- http/http_response.h, http_response.cc and http_server.cc: the response, its text, and what the server
-- does with a message. The user's callback is a parameter; `headers_` is listed in the order in which
-- the map is walked. `snprintf` writes a decimal number and keeps what fits its buffer.
use ryan_network_library.Prelude.{
  ℕ, ◌+◌, ◌^◌, ◌<◌, ◌≡◌, refl, sym, ◌∙◌, Bool, true, Option, some, List, [], ◌∷◌, ◌++◌,
  append_assoc, append-nil, arith, length, take, length-append, if◌then◌else◌, ◌>>=◌,
}
use ryan_network_library.Buffer.{Buffer, new, initial_size, append}
use ryan_network_library.Buffer.Layout.{IsValid, contents}
use ryan_network_library.Buffer.Space.{append_lem}
use ryan_network_library.Http.Request.{HttpRequest}
use ryan_network_library.Http.Context.{got_all, parse_request, new_context}

pub record HttpResponse : Type 0 where
  pub headers : List (List ℕ × List ℕ)
  pub status_code : ℕ
  pub status_message : List ℕ
  pub close_connection : Bool
  pub body : List ℕ

-- `HttpResponse(close)`.
unfoldable pub new_response : Bool → HttpResponse
new_response close = record {
  headers = [];
  status_code = 0;
  status_message = [];
  close_connection = close;
  body = [];
}

-- `DefaultHttpCallback`.
unfoldable pub default_http_callback : HttpRequest → HttpResponse → HttpResponse
default_http_callback req resp = record resp {
  status_code = 404;
  status_message = b'N' ∷ b'o' ∷ b't' ∷ b' ' ∷ b'F' ∷ b'o' ∷ b'u' ∷ b'n' ∷ b'd' ∷ [];
  close_connection = true;
}

-- What the server does to the connection.
pub data Reply : Type 0 where
  send_bad_request : Reply
  send_buffer : Buffer → Reply
  shut_down : Reply

-- The pieces that `AppendToBuffer` appends; `decimal` is how `snprintf` writes a number.
module _ (decimal : ℕ → List ℕ) where
  abbrev http11_text : List ℕ
  http11_text = b'H' ∷ b'T' ∷ b'T' ∷ b'P' ∷ b'/' ∷ b'1' ∷ b'.' ∷ b'1' ∷ b' ' ∷ []

  abbrev crlf_text : List ℕ
  crlf_text = 13 ∷ 10 ∷ []

  -- `snprintf` into 32 bytes keeps 31.
  abbrev fits_buf : List ℕ → List ℕ
  fits_buf = take 31

  abbrev close_text : List ℕ
  close_text =
      b'C' ∷ b'o' ∷ b'n' ∷ b'n' ∷ b'e' ∷ b'c' ∷ b't' ∷ b'i' ∷ b'o' ∷ b'n' ∷ b':' ∷ b' ' ∷ b'c'
      ∷ b'l' ∷ b'o' ∷ b's' ∷ b'e' ∷ 13 ∷ 10 ∷ []

  abbrev keep_text : List ℕ
  keep_text =
      b'C' ∷ b'o' ∷ b'n' ∷ b'n' ∷ b'e' ∷ b'c' ∷ b't' ∷ b'i' ∷ b'o' ∷ b'n' ∷ b':' ∷ b' ' ∷ b'K'
      ∷ b'e' ∷ b'e' ∷ b'p' ∷ b'-' ∷ b'A' ∷ b'l' ∷ b'i' ∷ b'v' ∷ b'e' ∷ 13 ∷ 10 ∷ []

  abbrev length_text : List ℕ
  length_text =
      b'C' ∷ b'o' ∷ b'n' ∷ b't' ∷ b'e' ∷ b'n' ∷ b't' ∷ b'-' ∷ b'L' ∷ b'e' ∷ b'n' ∷ b'g' ∷ b't'
      ∷ b'h' ∷ b':' ∷ b' ' ∷ []

  abbrev pub header_pieces : List (List ℕ × List ℕ) → List (List ℕ)
  header_pieces [] = []
  header_pieces ((key, value) ∷ hs) =
      key ∷ (b':' ∷ b' ' ∷ []) ∷ value ∷ crlf_text ∷ header_pieces hs

  unfoldable pub pieces : HttpResponse → List (List ℕ)
  pieces r =
      fits_buf (http11_text ++ (decimal r.status_code ++ (b' ' ∷ [])))
      ∷ r.status_message
      ∷ crlf_text
      ∷ ((if r.close_connection
            then close_text ∷ []
            else fits_buf (length_text ++ (decimal (length r.body) ++ crlf_text)) ∷ keep_text ∷ [])
          ++ (header_pieces r.headers ++ (crlf_text ∷ r.body ∷ [])))

  unfoldable pub append_all : List (List ℕ) → Buffer → Option Buffer
  append_all [] output = some output
  append_all (p ∷ ps) output = do output' ← append p output; append_all ps output'

  unfoldable pub append_to_buffer : HttpResponse → Buffer → Option Buffer
  unfolding append_all
  append_to_buffer r output = append_all (pieces r) output

  abbrev pub joined : List (List ℕ) → List ℕ
  joined [] = []
  joined (p ∷ ps) = p ++ joined ps

  -- The text of a response.
  abbrev pub response_text : HttpResponse → List ℕ
  response_text r = joined (pieces r)

  append_all_lem :
      (ps : List (List ℕ)) (output : Buffer)
      → IsValid output
      → length output.buffer + length (joined ps) < 2 ^ 62
      → length (joined ps) < 2 ^ 31
      → (output' : Buffer) × (append_all ps output ≡ some output')
        × IsValid output'
        × (contents output' ≡ contents output ++ joined ps)
  unfolding append_all
  append_all_lem [] output v fits small = (output, refl, v, sym (append-nil (contents output)))
  append_all_lem (p ∷ ps) output v fits small =
      let n = length-append p (joined ps) in
      let (o, e, v', k, g) = append_lem output p v (omega (arith, n)) (omega (arith, n)) in
      let (o', e', v'', k') = append_all_lem ps o v' (omega (arith, n, g)) (omega (arith, n)) in
      (o', rw e e', v'', k' ∙ rw k (append_assoc (contents output) p (joined ps)))

  -- A response whose text is below 2 ^ 31 bytes, appended to a valid buffer whose storage stays below
  -- 2 ^ 62 bytes: no fault, and the content grows by exactly the text.
  pub append_to_buffer_lem :
      (r : HttpResponse) (output : Buffer)
      → IsValid output
      → length output.buffer + length (response_text r) < 2 ^ 62
      → length (response_text r) < 2 ^ 31
      → (output' : Buffer) × (append_to_buffer r output ≡ some output')
        × IsValid output'
        × (contents output' ≡ contents output ++ response_text r)
  unfolding append_to_buffer
  append_to_buffer_lem r output v fits small = append_all_lem (pieces r) output v fits small

  -- `OnRequest`: `close` is set to true whatever the request asks for.
  unfoldable pub on_request :
      (HttpRequest → HttpResponse → HttpResponse) → HttpRequest → Option (List Reply)
  unfolding append_to_buffer
  on_request http_callback req = do
    let response = http_callback req (new_response true)
    buf ← append_to_buffer response (new initial_size)
    some (send_buffer buf ∷ (if response.close_connection then shut_down ∷ [] else []))

  -- `OnMessage`: each message is parsed with a new context.
  unfoldable pub on_message :
      (HttpRequest → HttpResponse → HttpResponse) → ℕ → ℕ → Buffer → Option (List Reply × Buffer)
  unfolding on_request
  on_message http_callback fuel now b = do
    p ← parse_request fuel now new_context b
    let refused = if p.ok then [] else send_bad_request ∷ shut_down ∷ []
    elim p.context.state [
      | got_all ↦ (do
        replies ← on_request http_callback p.context.request
        some (refused ++ replies, p.buffer))
      | _ ↦ some (refused, p.buffer)
    ]
