-- ===== src/Http/Service.antt =====
-- How http/http_server.cc sits on tcp_connection/tcp_connection.cc: the bytes that `readv` delivers to
-- a connection's input buffer, the message callback on them, and its replies on the same connection.
use ryan_network_library.Prelude.{
  ℕ, suc, ◌+◌, ◌^◌, ◌≤◌, ◌<◌, ◌≡◌, refl, sym, ap, ◌∙◌, inl, inr, Bool, true, false, not, ◌&&◌,
  Option, some, List, [], ◌∷◌, ◌++◌, arith, length, drop, ltb, if◌then◌else◌, lt→ltb, Bool-cases,
  ◌>>=◌,
}
use ryan_network_library.Buffer.{Buffer, content_to_string}
use ryan_network_library.Buffer.Layout.{IsValid, contents}
use ryan_network_library.Buffer.Front.{content_to_string_lem}
use ryan_network_library.Buffer.Fd.{
  Write, Readv, received, failed, capacity, read_fd, count, read_fd_lem,
}
use ryan_network_library.Channel.{is_writing}
use ryan_network_library.TcpConnection.{
  Conn, keep_rest, warn, direct_write, is_connected, connected, disconnecting, message_callback,
  do_action, nwrote, send, send_buffer as send_conn_buffer, send_in_loop, shutdown,
  shutdown_in_loop, handle_read,
}
use ryan_network_library.TcpConnection.Stream.{IsSynced, stream, accepted, send_in_loop_lem}
use ryan_network_library.TcpConnection.Lifecycle.{shutdowns, send_in_loop-Quiet}
use ryan_network_library.Http.Request.{HttpRequest, Method, is_valid_method}
use ryan_network_library.Http.Lines.{Lacks, IsQuery}
use ryan_network_library.Http.RoundTrip.{Header, AllHeaders, request_text}
use ryan_network_library.Http.Server.{
  HttpResponse, response_text, Reply, send_bad_request, send_buffer, shut_down, on_message,
}
use ryan_network_library.Http.Messages.{parsed, response, on_message_lem}

-- "HTTP/1.1 400 Bad request" with two line ends.
abbrev pub bad_request_text : List ℕ
bad_request_text =
    b'H' ∷ b'T' ∷ b'T' ∷ b'P' ∷ b'/' ∷ b'1' ∷ b'.' ∷ b'1' ∷ b' ' ∷ b'4' ∷ b'0' ∷ b'0' ∷ b' ' ∷ b'B'
    ∷ b'a' ∷ b'd' ∷ b' ' ∷ b'r' ∷ b'e' ∷ b'q' ∷ b'u' ∷ b'e' ∷ b's' ∷ b't' ∷ 13 ∷ 10 ∷ 13 ∷ 10 ∷ []

-- One reply on the connection; `w` is what `write` returns, where it is called.
unfoldable pub answer : Write → Reply → Conn → Option Conn
answer w send_bad_request c = send w bad_request_text c
answer w (send_buffer buf) c = do (c', buf') ← send_conn_buffer w buf c; some c'
answer w shut_down c = some (shutdown c)

-- The replies in order; `write` says what `write(2)` returns for each.
unfoldable pub answer_all : (ℕ → Write) → List Reply → Conn → Option Conn
unfolding answer
answer_all write [] c = some c
answer_all write (r ∷ rs) c = do c' ← answer (write 0) r c; answer_all (λ k. write (suc k)) rs c'

-- A request that the parser takes whole: a known method; a target with no space, no line end, and no
-- question mark but the query's first byte; well-formed headers.
pub record IsRequest (m : Method) (path query : List ℕ) (hs : List Header) : Type 0 where
  pub known : is_valid_method m ≡ true
  pub spaces : Lacks b' ' (path ++ query)
  pub ends : Lacks 13 (path ++ query)
  pub marks : Lacks b'?' path
  pub query_mark : IsQuery query
  pub all_headers : AllHeaders hs

module _ (decimal : ℕ → List ℕ) (http_callback : HttpRequest → HttpResponse → HttpResponse) where
  -- `OnMessage(conn, &input_buffer_, now)`.
  unfoldable pub serve : ℕ → ℕ → (ℕ → Write) → Conn → Option Conn
  unfolding answer_all
  serve fuel now write c = do
    (replies, input) ← on_message decimal http_callback fuel now c.input
    answer_all write replies (record c { input = input })

  -- `HandleRead` of a connection whose message callback is the server's `OnMessage`.
  unfoldable pub receive : ℕ → ℕ → (ℕ → Write) → Readv → Conn → Option Conn
  unfolding serve
  receive fuel now write r c = do
    c' ← handle_read r c
    elim r [
      | received bytes ↦ if ltb 0 (length bytes) then serve fuel now write c' else some c'
      | failed errno ↦ some c'
    ]

keep_rest-input : (rest : List ℕ) (c c' : Conn) → keep_rest rest c ≡ some c' → c'.input ≡ c.input
unfolding keep_rest warn
keep_rest-input rest c c' e = ground arith

direct_write-input :
    (w : Write) (message : List ℕ) (c : Conn) → (direct_write w message c).input ≡ c.input
unfolding direct_write
direct_write-input w message c = ground arith

-- A message that goes out leaves the input buffer alone.
send_in_loop-input :
    (w : Write) (message : List ℕ) (c c' : Conn)
    → send_in_loop w message c ≡ some c'
    → c'.input ≡ c.input
unfolding send_in_loop
send_in_loop-input w message c c' e = ground (
  arith,
  keep_rest-input message c c',
  keep_rest-input (drop (nwrote w) message) (direct_write w message c) c',
  direct_write-input w message c,
)

-- `Send(Buffer*)` of a valid buffer on a connected, synced connection.
send_conn_buffer_lem :
    (w : Write) (buf : Buffer) (c : Conn) {message : List ℕ}
    → IsValid buf
    → contents buf ≡ message
    → IsSynced c
    → c.state ≡ connected
    → nwrote w ≤ length message
    → length message < 2 ^ 31
    → length c.output.buffer + length message < 2 ^ 62
    → (c' : Conn) × (answer w (send_buffer buf) c ≡ some c')
      × IsSynced c'
      × (c'.state ≡ connected)
      × (stream c' ≡ stream c ++ accepted w message c)
      × (c'.input ≡ c.input)
      × (shutdowns c'.actions ≡ shutdowns c.actions)
unfolding answer send_conn_buffer
send_conn_buffer_lem w buf c {message} v k s on n small fits =
    let live : is_connected c.state ≡ true = rw on in
    let text : content_to_string buf ≡ some message = content_to_string_lem v ∙ ap some k in
    let (c', e, s', st, g, _) = send_in_loop_lem w message c s (rw on) n small fits in
    let (_, quiet) = send_in_loop-Quiet w message c c' e in
    (c', rw (live, text, e), s', st ∙ on, g, send_in_loop-input w message c c' e, quiet)

shutdown_lem :
    (c : Conn)
    → IsSynced c
    → c.state ≡ connected
    → IsSynced (shutdown c)
      × ((shutdown c).state ≡ disconnecting)
      × (stream (shutdown c) ≡ stream c)
      × ((shutdown c).input ≡ c.input)
      × (shutdowns (shutdown c).actions
          ≡ shutdowns c.actions + (if is_writing (shutdown c).events then 0 else 1))
unfolding shutdown shutdown_in_loop
shutdown_lem c s on = elim (Bool-cases (is_writing c.events)) [
  | inl writing ↦
      rw (on, writing)
        (record { valid = s.valid; flag = λ _. live writing }, refl, refl, refl, omega arith)
  | inr quiet ↦
      rw (on, quiet)
        (record { valid = s.valid; flag = λ _. live quiet }, refl, refl, refl, omega arith)
]
  where
    live : {b : Bool} → is_writing c.events ≡ b → b ≡ ltb 0 (length (contents c.output))
    live e = sym e ∙ s.flag (rw on)

-- The response and the half close behind it.
replies_lem :
    (write : ℕ → Write) (buf : Buffer) (close : Bool) (c : Conn) {message : List ℕ}
    → IsValid buf
    → contents buf ≡ message
    → IsSynced c
    → c.state ≡ connected
    → nwrote (write 0) ≤ length message
    → length message < 2 ^ 31
    → length c.output.buffer + length message < 2 ^ 62
    → (c' : Conn) × (answer_all write (send_buffer buf ∷ (if close then shut_down ∷ [] else [])) c
        ≡ some c')
      × IsSynced c'
      × (c'.state ≡ (if close then disconnecting else connected))
      × (stream c' ≡ stream c ++ accepted (write 0) message c)
      × (c'.input ≡ c.input)
      × (shutdowns c'.actions
          ≡ shutdowns c.actions + (if close && not (is_writing c'.events) then 1 else 0))
unfolding answer_all
replies_lem write buf false c v k s on n small fits =
    let (c', e, s', st, g, same, quiet) =
      send_conn_buffer_lem (write 0) buf c v k s on n small fits in
    (c', rw e refl, s', st, g, same, omega (arith, quiet))
replies_lem write buf true c v k s on n small fits =
    let (c', e, s', st, g, same, quiet) =
      send_conn_buffer_lem (write 0) buf c v k s on n small fits in
    let (s'', st', g', same', number) = shutdown_lem c' s' st in
    (shutdown c', rw e refl, s'', st', g' ∙ g, same' ∙ same, number ∙ rw quiet (ground arith))

handle_read-received :
    (bytes : List ℕ) (c : Conn) (b : Buffer)
    → read_fd (received bytes) c.input ≡ some (count (length bytes), b)
    → 0 < length bytes
    → handle_read (received bytes) c ≡ some (do_action message_callback (record c { input = b }))
unfolding handle_read
handle_read-received bytes c b e more = rw (e, lt→ltb 0 (length bytes) more)

module _ (decimal : ℕ → List ℕ) (http_callback : HttpRequest → HttpResponse → HttpResponse) where
  -- The text with which the server answers a request.
  abbrev pub answer_text : Method → List ℕ → List ℕ → List Header → ℕ → List ℕ
  answer_text m path query hs now =
      response_text decimal
        (response decimal http_callback (parsed decimal http_callback m path query hs now))

  -- Whether it then closes its side.
  abbrev pub closes : Method → List ℕ → List ℕ → List Header → ℕ → Bool
  closes m path query hs now =
      (response decimal http_callback
        (parsed decimal http_callback m path query hs now)).close_connection

  -- A connected, synced connection with a valid input buffer below 2 ^ 61 bytes, to which `readv`
  -- delivers bytes that complete a request (what was there before, the bytes, and whatever is behind
  -- the request); fuel for the lines; a response below 2 ^ 31 bytes of which `write` takes no more
  -- than all: no fault; what the connection sent and what waits grow by exactly the response (by
  -- nothing where `write` met a broken connection); the bytes behind the request stay in the input
  -- buffer; the connection is disconnecting if the response says close, else still connected; and the
  -- write side is shut down, once, exactly if it says close and nothing waits to be written.
  pub receive_lem :
      (m : Method) (path query : List ℕ) (hs : List Header) (bytes rest : List ℕ) (fuel now : ℕ)
      (write : ℕ → Write) (c : Conn)
      → IsRequest m path query hs
      → IsSynced c
      → c.state ≡ connected
      → IsValid c.input
      → length c.input.buffer < 2 ^ 61
      → 0 < length bytes
      → length bytes ≤ capacity c.input
      → contents c.input ++ bytes ≡ request_text m path query hs rest
      → length hs + 1 < fuel
      → length (answer_text m path query hs now) < 2 ^ 31
      → nwrote (write 0) ≤ length (answer_text m path query hs now)
      → length c.output.buffer + length (answer_text m path query hs now) < 2 ^ 62
      → (c' : Conn) × (receive decimal http_callback fuel now write (received bytes) c ≡ some c')
        × IsSynced c'
        × (stream c' ≡ stream c ++ accepted (write 0) (answer_text m path query hs now) c)
        × (contents c'.input ≡ rest)
        × (c'.state ≡ (if closes m path query hs now then disconnecting else connected))
        × (shutdowns c'.actions
            ≡ shutdowns c.actions
              + (if closes m path query hs now && not (is_writing c'.events) then 1 else 0))
  unfolding receive serve
  receive_lem m path query hs bytes rest fuel now write c q s on v small more room e enough short
        took fits =
      let (b, f, v', k) = read_fd_lem bytes c.input v small room in
      let (buf, b', g, l, u, v'', left) =
        on_message_lem decimal http_callback m path query hs rest fuel now b v' (k ∙ e) q.known
          q.spaces q.ends q.marks q.query_mark q.all_headers enough short in
      let c_read = do_action message_callback (record c { input = b' }) in
      let (c', h, s', st, grown, same, number) =
        replies_lem write buf (closes m path query hs now) c_read u l
          (record { valid = s.valid; flag = s.flag }) on took short fits in
      (
        c',
        rw (handle_read-received bytes c b f more, lt→ltb 0 (length bytes) more, g, h),
        s',
        grown,
        ap contents same ∙ left,
        st,
        omega (arith, number),
      )
