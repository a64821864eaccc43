-- ===== src/TcpConnection/Runs.antt =====
-- Any sequence of messages and writable events on one connection of tcp_connection/tcp_connection.cc.
use ryan_network_library.Prelude.{
  ℕ, ◌+◌, ◌^◌, ◌≤◌, ◌<◌, ◌≡◌, refl, sym, ap, ◌∙◌, inl, inr, false, Option, some, List, [], ◌∷◌,
  ◌++◌, append_assoc, append-nil, arith, length, length-append, ltb, Bool-cases, ◌>>=◌,
}
use ryan_network_library.Buffer.Fd.{Write, wrote, refused}
use ryan_network_library.Buffer.Layout.{contents}
use ryan_network_library.Channel.{is_writing}
use ryan_network_library.TcpConnection.{
  Conn, is_disconnected, is_fault, nwrote, send_in_loop, handle_write,
}
use ryan_network_library.TcpConnection.Stream.{
  IsSynced, stream, send_in_loop_lem, handle_write-wrote, handle_write-refused,
}

-- A message goes out, or the channel becomes writable; with what `write` does.
pub data Event : Type 0 where
  sends : Write → List ℕ → Event
  writable : Write → Event

unfoldable pub step : Event → Conn → Option Conn
step (sends w message) c = send_in_loop w message c
step (writable w) c = handle_write w c

unfoldable pub run : List Event → Conn → Option Conn
run [] c = some c
run (e ∷ es) c = do c' ← step e c; run es c'

-- The messages of the events, in order.
abbrev pub messages : List Event → List ℕ
messages [] = []
messages (sends w message ∷ es) = message ++ messages es
messages (writable w ∷ es) = messages es

-- `write` takes no more than it is given and meets no broken connection; messages are below 2 GiB.
abbrev pub IsFair : Event → Type 0
IsFair (sends w message) =
    (nwrote w ≤ length message) × (length message < 2 ^ 31) × (is_fault w ≡ false)
IsFair (writable w) = Unit {0}

abbrev pub AllFair : List Event → Type 0
AllFair [] = Unit {0}
AllFair (e ∷ es) = IsFair e × AllFair es

abbrev pub message_of : Event → List ℕ
message_of (sends w message) = message
message_of (writable w) = []

pub not_writing : (w : Write) (c : Conn) → is_writing c.events ≡ false → handle_write w c ≡ some c
unfolding handle_write
not_writing w c e = rw e

pub step-stream :
    (e : Event) (c : Conn)
    → IsSynced c
    → is_disconnected c.state ≡ false
    → IsFair e
    → length c.output.buffer + length (message_of e) < 2 ^ 62
    → (c' : Conn) × (step e c ≡ some c')
      × IsSynced c'
      × (c'.state ≡ c.state)
      × (stream c' ≡ stream c ++ message_of e)
      × (length c'.output.buffer ≤ length c.output.buffer + length (message_of e))
unfolding step
step-stream (sends w message) c s live fair fits =
    let (c', e, s', st, k, g) = send_in_loop_lem w message c s live fair.0 fair.1 fits in
    (c', e, s', st, k ∙ ap (λ m. stream c ++ m) (ground arith), g)
step-stream (writable (refused errno)) c s live fair fits =
    (c, handle_write-refused errno c s, s, refl, sym (append-nil (stream c)), omega arith)
step-stream (writable (wrote n)) c s live fair fits = elim (Bool-cases (is_writing c.events)) [
  | inl writing ↦
      let (c', e, s', st, k, g) = handle_write-wrote n c s live writing in
      (c', e, s', st, k ∙ sym (append-nil (stream c)), omega (arith, g))
  | inr quiet ↦
      (c, not_writing (wrote n) c quiet, s, refl, sym (append-nil (stream c)), omega arith)
]

messages-cons : (e : Event) (es : List Event) → messages (e ∷ es) ≡ message_of e ++ messages es
messages-cons (sends w message) es = refl
messages-cons (writable w) es = refl

-- From a synced connection that is not disconnected, any messages and writable events, with system
-- calls that take no more than they are given and meet no broken connection, messages below 2 ^ 31
-- bytes and a storage below 2 ^ 62: no step faults, the state of the connection stays, and the bytes
-- that the socket took followed by those that wait are the old ones followed by all the messages in
-- order. At the end the channel asks for writability exactly if bytes wait.
pub run-stream :
    (es : List Event) (c : Conn)
    → IsSynced c
    → is_disconnected c.state ≡ false
    → AllFair es
    → length c.output.buffer + length (messages es) < 2 ^ 62
    → (c' : Conn) × (run es c ≡ some c')
      × (c'.state ≡ c.state)
      × (stream c' ≡ stream c ++ messages es)
      × (is_writing c'.events ≡ ltb 0 (length (contents c'.output)))
unfolding run
run-stream [] c s live fair fits = (c, refl, refl, sym (append-nil (stream c)), s.flag live)
run-stream (e ∷ es) c s live fair fits =
    let m : length (messages (e ∷ es)) ≡ length (message_of e) + length (messages es) =
      ap length (messages-cons e es) ∙ length-append (message_of e) (messages es) in
    let (c', q, s', st, k, g) = step-stream e c s live fair.0 (omega (arith, m)) in
    let (c'', q', st', k', w) = run-stream es c' s' (rw st live) fair.1 (omega (arith, g, m)) in
    (
      c'',
      rw q q',
      st' ∙ st,
      k' ∙ rw (k, messages-cons e es) (append_assoc (stream c) (message_of e) (messages es)),
      w,
    )
