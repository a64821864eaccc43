-- ===== src/Http/Messages.antt =====
-- HttpServer::OnMessage: the answer to a whole request, and what becomes of a part of one.
use ryan_network_library.Prelude.{
  ℕ, suc, ◌+◌, ◌^◌, ◌<◌, ◌≡◌, refl, ◌∙◌, true, false, some, List, [], ◌∷◌, ◌++◌, arith, length,
  if◌then◌else◌, add64,
}
use ryan_network_library.Buffer.{Buffer, new, initial_size, retrieve_until}
use ryan_network_library.Buffer.Layout.{IsValid, contents, Layout-IsValid, Layout-contents}
use ryan_network_library.Buffer.Front.{new-Layout}
use ryan_network_library.Buffer.Search.{find_crlf_lem, NoCrlf}
use ryan_network_library.Http.Request.{HttpRequest, Method, new_request, is_valid_method}
use ryan_network_library.Http.Context.{
  expect_request_line, expect_headers, new_context, parse_request, parse_round, stop,
  parse_loop-more, parse_loop-stop,
}
use ryan_network_library.Http.Lines.{
  Lacks, request_line, with_line, IsQuery, first-Line, request_line-Lacks, process_request_line_lem,
}
use ryan_network_library.Http.RoundTrip.{
  Header, AllHeaders, request_text, with_headers, parse_request_lem, request_round_lem,
}
use ryan_network_library.Http.Server.{
  HttpResponse, new_response, pieces, response_text, append_to_buffer_lem, send_bad_request,
  send_buffer, shut_down, on_request, on_message,
}

module _ (decimal : ℕ → List ℕ) (http_callback : HttpRequest → HttpResponse → HttpResponse) where
  -- The request that a text stands for, and the response to it.
  abbrev pub parsed : Method → List ℕ → List ℕ → List Header → ℕ → HttpRequest
  parsed m path query hs now =
      with_headers hs (record (with_line m path query new_request) { receive_time = now })

  abbrev pub response : HttpRequest → HttpResponse
  response req = http_callback req (new_response true)

  on_request_lem :
      (req : HttpRequest)
      → length (response_text decimal (response req)) < 2 ^ 31
      → (buf : Buffer) × (on_request decimal http_callback req
          ≡ some
              (send_buffer buf ∷ (if (response req).close_connection then shut_down ∷ [] else [])))
        × (contents buf ≡ response_text decimal (response req))
        × IsValid buf
  unfolding on_request new pieces
  on_request_lem req small =
      let layout = new-Layout initial_size (omega arith) in
      let (buf, e, v, k) =
        append_to_buffer_lem decimal (response req) (new initial_size) (Layout-IsValid layout)
          (omega arith) small in
      (buf, rw e refl, k ∙ rw (Layout-contents layout) refl, v)

  -- A valid buffer that holds a whole request as for `ParseRequest`, and more bytes behind it, with more
  -- fuel than two rounds and a round for each header, and a response of the user's callback whose text is
  -- below 2 ^ 31 bytes: `OnMessage` sends a valid buffer with exactly this text, shuts down if the
  -- response says so, and leaves the bytes behind the request in the buffer.
  pub on_message_lem :
      (m : Method) (path query : List ℕ) (hs : List Header) (rest : List ℕ) (fuel now : ℕ)
      (b : Buffer)
      → IsValid b
      → contents b ≡ request_text m path query hs rest
      → is_valid_method m ≡ true
      → Lacks b' ' (path ++ query)
      → Lacks 13 (path ++ query)
      → Lacks b'?' path
      → IsQuery query
      → AllHeaders hs
      → length hs + 1 < fuel
      → length (response_text decimal (response (parsed m path query hs now))) < 2 ^ 31
      → (buf : Buffer) × (b' : Buffer) × (on_message decimal http_callback fuel now b
          ≡ some (
            send_buffer buf
                ∷ (if (response (parsed m path query hs now)).close_connection
                    then shut_down ∷ []
                    else []),
            b',
          ))
        × (contents buf ≡ response_text decimal (response (parsed m path query hs now)))
        × IsValid buf
        × IsValid b'
        × (contents b' ≡ rest)
  unfolding on_message new_context
  on_message_lem m path query hs rest fuel now b v e known spaces ends marks q all enough small =
      let (b', f, v', k) =
        parse_request_lem m path query hs rest fuel now new_request b v e known spaces ends marks q
          all enough in
      let (buf, g, l, u) = on_request_lem (parsed m path query hs now) small in
      (buf, b', rw (f, g) refl, l, u, v', k)

  nothing_found :
      (now : ℕ) (b : Buffer)
      → IsValid b
      → NoCrlf (contents b)
      → parse_round expect_request_line now false new_context b
        ≡ stop (record { ok = false; context = new_context; buffer = b })
  unfolding parse_round
  nothing_found now b v h = rw ((find_crlf_lem b v).1 h) refl

  no_header :
      (now : ℕ) (req : HttpRequest) (b' : Buffer)
      → IsValid b'
      → NoCrlf (contents b')
      → parse_round expect_headers now true (record { state = expect_headers; request = req }) b'
        ≡ stop (record {
          ok = true;
          context = record { state = expect_headers; request = req };
          buffer = b';
        })
  unfolding parse_round
  no_header now req b' v' h = rw ((find_crlf_lem b' v').1 h) refl

  -- A message without a line end, whatever it holds, even none: it is answered as a bad request, and the
  -- connection is shut down.
  on_message_no_line :
      (fuel now : ℕ) (b : Buffer)
      → IsValid b
      → NoCrlf (contents b)
      → on_message decimal http_callback (suc fuel) now b
        ≡ some (send_bad_request ∷ shut_down ∷ [], b)
  unfolding on_message new_context parse_request
  on_message_no_line fuel now b v no_line =
      let e = parse_loop-stop fuel now false new_context b (nothing_found now b v no_line) in
      rw e refl

  -- A valid buffer that holds a good request line (as for `ParseRequest`) and behind it no line end,
  -- and fuel for two rounds: `OnMessage` answers nothing, takes the line from the buffer, and keeps
  -- nothing of it for the next message.
  pub on_message_forgets :
      (m : Method) (path query rest : List ℕ) (fuel now : ℕ) (b : Buffer)
      → IsValid b
      → contents b ≡ request_line m path query ++ (13 ∷ (10 ∷ rest))
      → is_valid_method m ≡ true
      → Lacks b' ' (path ++ query)
      → Lacks 13 (path ++ query)
      → Lacks b'?' path
      → IsQuery query
      → NoCrlf rest
      → (b' : Buffer) × (on_message decimal http_callback (suc (suc fuel)) now b ≡ some ([], b'))
        × IsValid b'
        × (contents b' ≡ rest)
  unfolding on_message new_context parse_request
  on_message_forgets m path query rest fuel now b v e known spaces ends marks q no_line =
      let line =
        first-Line b (request_line m path query) rest v (request_line-Lacks m path query ends) e in
      let good =
        request_round_lem m path query now new_request b line
          (process_request_line_lem m path query new_request known spaces marks q) in
      let b' = retrieve_until (add64 line.end 2) b in
      let req = record (with_line m path query new_request) { receive_time = now } in
      let none_there : NoCrlf (contents b') = rw line.left no_line in
      let f = parse_loop-more (suc fuel) now false new_context b good in
      let g =
        parse_loop-stop fuel now true (record { state = expect_headers; request = req }) b'
          (no_header now req b' line.valid none_there) in
      (b', rw (f, g) refl, line.valid, line.left)
