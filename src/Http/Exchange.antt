-- ===== src/Http/Exchange.antt =====
-- A whole exchange of http/http_server.cc over tcp_connection/tcp_connection.cc: from the bytes that
-- complete a request to the last byte of the response and the half close.
use ryan_network_library.Prelude.{
  ℕ, ◌+◌, ◌^◌, ◌≤◌, ◌<◌, ◌≡◌, refl, sym, ap, ◌∙◌, inl, inr, true, false, not, some, List, ◌++◌,
  append-nil, arith, length, length-append, if◌then◌else◌, Bool-cases, ltb_false→le,
}
use ryan_network_library.Buffer.Layout.{IsValid, contents}
use ryan_network_library.Buffer.Fd.{Write, received, capacity}
use ryan_network_library.Channel.{is_writing}
use ryan_network_library.TcpConnection.{
  Conn, connected, disconnecting, is_disconnected, is_fault, nwrote,
}
use ryan_network_library.TcpConnection.Stream.{IsSynced, stream, accepted, nil_of_length}
use ryan_network_library.TcpConnection.Lifecycle.{shutdowns}
use ryan_network_library.TcpConnection.Runs.{run}
use ryan_network_library.TcpConnection.Drain.{writables, sum, idle, drain_lem}
use ryan_network_library.Http.Request.{HttpRequest, Method}
use ryan_network_library.Http.RoundTrip.{Header, request_text}
use ryan_network_library.Http.Server.{HttpResponse}
use ryan_network_library.Http.Service.{IsRequest, receive, answer_text, closes, receive_lem}

-- A synced connection that is disconnecting and has done the half close exactly if nothing waits, and
-- writable events that take what waits.
finish_lem :
    (ns : List ℕ) (c : Conn) (n : ℕ)
    → IsSynced c
    → c.state ≡ disconnecting
    → shutdowns c.actions ≡ n + (if not (is_writing c.events) then 1 else 0)
    → length (contents c.output) ≤ sum ns
    → (c' : Conn) × (run (writables ns) c ≡ some c')
      × (c'.sent ≡ stream c)
      × (c'.state ≡ disconnecting)
      × (shutdowns c'.actions ≡ n + 1)
finish_lem ns c n s closing count all = elim (Bool-cases (is_writing c.events)) [
  | inl writing ↦
      let (c', e, sent, _, st, _, more) = drain_lem ns c s closing writing all in
      (c', e, sent, st, more ∙ ap (λ k. k + 1) (count ∙ rw writing (omega arith)))
  | inr quiet ↦
      let live : is_disconnected c.state ≡ false = rw closing in
      let empty =
        nil_of_length (contents c.output)
          (ltb_false→le 0 (length (contents c.output)) (sym (s.flag live) ∙ quiet)) in
      (
        c,
        idle ns c quiet,
        sym (append-nil c.sent) ∙ ap (λ l. c.sent ++ l) (sym empty),
        closing,
        count ∙ rw quiet refl,
      )
]

module _ (decimal : ℕ → List ℕ) (http_callback : HttpRequest → HttpResponse → HttpResponse) where
  -- A connected, synced connection with a valid input buffer below 2 ^ 61 bytes, to which `readv`
  -- delivers bytes that complete a request; fuel for its lines; a response below 2 ^ 31 bytes that says
  -- close, and storage for it below 2 ^ 62; a first `write` that takes no more than all of it and meets
  -- no broken connection; then writable events in which `write` takes at least as many bytes as there
  -- are to send. No step faults; the socket takes what the connection had to send before and then
  -- exactly the response; the bytes behind the request stay in the input buffer; and the write side is
  -- shut down exactly once, however the bytes were cut.
  pub exchange_lem :
      (m : Method) (path query : List ℕ) (hs : List Header) (bytes rest : List ℕ) (fuel now : ℕ)
      (write : ℕ → Write) (ns : List ℕ) (c : Conn)
      → IsRequest m path query hs
      → IsSynced c
      → c.state ≡ connected
      → IsValid c.input
      → length c.input.buffer < 2 ^ 61
      → 0 < length bytes
      → length bytes ≤ capacity c.input
      → contents c.input ++ bytes ≡ request_text m path query hs rest
      → length hs + 1 < fuel
      → length (answer_text decimal http_callback m path query hs now) < 2 ^ 31
      → nwrote (write 0) ≤ length (answer_text decimal http_callback m path query hs now)
      → length c.output.buffer + length (answer_text decimal http_callback m path query hs now)
        < 2 ^ 62
      → closes decimal http_callback m path query hs now ≡ true
      → is_fault (write 0) ≡ false
      → length (stream c ++ answer_text decimal http_callback m path query hs now) ≤ sum ns
      → (c' : Conn) × (c'' : Conn) × (receive decimal http_callback fuel now write
            (received bytes)
            c
          ≡ some c')
        × (run (writables ns) c' ≡ some c'')
        × (c''.sent ≡ stream c ++ answer_text decimal http_callback m path query hs now)
        × (contents c'.input ≡ rest)
        × (c''.state ≡ disconnecting)
        × (shutdowns c''.actions ≡ shutdowns c.actions + 1)
  exchange_lem m path query hs bytes rest fuel now write ns c q s on v small more room e enough
        short took fits close whole all =
      let (c', f, s', grown, left, st, count) =
        receive_lem decimal http_callback m path query hs bytes rest fuel now write c q s on v small
          more room e enough short took fits in
      let taken : accepted (write 0) (answer_text decimal http_callback m path query hs now) c
          ≡ answer_text decimal http_callback m path query hs now =
        ground (arith, whole) in
      let all_of : stream c' ≡ stream c ++ answer_text decimal http_callback m path query hs now =
        grown ∙ ap (λ l. stream c ++ l) taken in
      let waiting : length (contents c'.output) ≤ sum ns =
        omega (arith, length-append c'.sent (contents c'.output), ap length all_of) in
      let (c'', g, sent, closed, once) =
        finish_lem ns c' (shutdowns c.actions) s' (st ∙ rw close refl) (count ∙ rw close refl)
          waiting in
      (c', c'', f, g, sent ∙ all_of, left, closed, once)
