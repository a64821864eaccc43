-- ===== src/TcpConnection/Drain.antt =====
-- The end of a connection that was shut down while bytes waited: tcp_connection.cc, HandleWrite.
use ryan_network_library.Prelude.{
  ℕ, ◌+◌, ◌-◌, ◌≤◌, ◌≡◌, refl, sym, ap, ◌∙◌, inl, inr, true, false, some, List, [], ◌∷◌, ◌++◌,
  append-nil, arith, length, length-drop, ltb, if◌then◌else◌, Bool-cases, ltb_false→le,
}
use ryan_network_library.Buffer.{retrieve}
use ryan_network_library.Buffer.Layout.{contents}
use ryan_network_library.Buffer.Queue.{retrieve_lem}
use ryan_network_library.Buffer.Fd.{wrote, write_fd}
use ryan_network_library.Channel.{is_writing, disable_writing}
use ryan_network_library.TcpConnection.{
  Conn, disconnecting, is_disconnected, handle_write, shutdown_in_loop,
}
use ryan_network_library.TcpConnection.Stream.{IsSynced, stream, nil_of_length, handle_write-wrote}
use ryan_network_library.TcpConnection.Lifecycle.{shutdowns}
use ryan_network_library.TcpConnection.Runs.{Event, writable, step, run, not_writing}

-- Writable events, each with the number of bytes that `write` takes.
abbrev pub writables : List ℕ → List Event
writables [] = []
writables (n ∷ ns) = writable (wrote n) ∷ writables ns

abbrev pub sum : List ℕ → ℕ
sum [] = 0
sum (n ∷ ns) = n + sum ns

-- The write side is shut down by the event that empties the buffer, and by no other.
shutdowns-handle_write :
    (n : ℕ) (c c' : Conn)
    → c.state ≡ disconnecting
    → is_writing c.events ≡ true
    → handle_write (wrote n) c ≡ some c'
    → shutdowns c'.actions ≡ shutdowns c.actions + (if is_writing c'.events then 0 else 1)
unfolding handle_write write_fd shutdown_in_loop disable_writing
shutdowns-handle_write n c c' closing writing e = ground arith

output-handle_write :
    (n : ℕ) (c c' : Conn)
    → is_writing c.events ≡ true
    → handle_write (wrote n) c ≡ some c'
    → c'.output ≡ (if ltb 0 n then retrieve n c.output else c.output)
unfolding handle_write write_fd shutdown_in_loop
output-handle_write n c c' writing e = ground arith

-- Nothing waits any more.
pub idle : (ns : List ℕ) (c : Conn) → is_writing c.events ≡ false → run (writables ns) c ≡ some c
unfolding run step
idle [] c quiet = refl
idle (n ∷ ns) c quiet = rw (not_writing (wrote n) c quiet) (idle ns c quiet)

-- One event, by how much less waits.
drain_step :
    (n : ℕ) (c : Conn)
    → IsSynced c
    → c.state ≡ disconnecting
    → is_writing c.events ≡ true
    → (c' : Conn) × (handle_write (wrote n) c ≡ some c')
      × IsSynced c'
      × (c'.state ≡ disconnecting)
      × (stream c' ≡ stream c)
      × (length (contents c'.output) ≡ length (contents c.output) - n)
      × (shutdowns c'.actions ≡ shutdowns c.actions + (if is_writing c'.events then 0 else 1))
drain_step n c s closing writing =
    let (c', e, s', st, k, _) = handle_write-wrote n c s (rw closing) writing in
    let out = output-handle_write n c c' writing e in
    let rest = (retrieve_lem n c.output s.valid).1 in
    let less : length (contents c'.output) ≡ length (contents c.output) - n =
      elim (Bool-cases (ltb 0 n)) [
        | inl taken ↦ rw (out, taken, rest) (length-drop n (contents c.output))
        | inr none_taken ↦
            let zero_taken = ltb_false→le 0 n none_taken in rw (out, none_taken) (omega arith)
      ] in
    (c', e, s', st ∙ closing, k, less, shutdowns-handle_write n c c' closing writing e)

-- A synced connection that is disconnecting while bytes wait, and writable events in which `write`
-- takes at least as many bytes in all: the socket has then taken all the bytes that were sent or
-- waited, in order, nothing waits, and the write side was shut down exactly once, however many events
-- follow.
pub drain_lem :
    (ns : List ℕ) (c : Conn)
    → IsSynced c
    → c.state ≡ disconnecting
    → is_writing c.events ≡ true
    → length (contents c.output) ≤ sum ns
    → (c' : Conn) × (run (writables ns) c ≡ some c')
      × (c'.sent ≡ stream c)
      × (contents c'.output ≡ [])
      × (c'.state ≡ disconnecting)
      × (is_writing c'.events ≡ false)
      × (shutdowns c'.actions ≡ shutdowns c.actions + 1)
unfolding run step
drain_lem [] c s closing writing all =
    let live : is_disconnected c.state ≡ false = rw closing in absurd (ground (arith, s.flag live))
drain_lem (n ∷ ns) c s closing writing all =
    let (u, e, s', st, k, less, count) = drain_step n c s closing writing in
    elim (Bool-cases (is_writing u.events)) [
      | inl still ↦
          let (c', f, sent, empty, closed, quiet, more) =
            drain_lem ns u s' st still (omega (arith, less)) in
          (c', rw (e, f), sent ∙ k, empty, closed, quiet, more ∙ rw count (rw still (omega arith)))
      | inr quiet ↦
          let live : is_disconnected u.state ≡ false = rw st in
          let empty =
            nil_of_length (contents u.output)
              (ltb_false→le 0 (length (contents u.output)) (sym (s'.flag live) ∙ quiet)) in
          (
            u,
            rw (e, idle ns u quiet),
            sym (append-nil u.sent) ∙ ap (λ l. u.sent ++ l) (sym empty) ∙ k,
            empty,
            st,
            quiet,
            count ∙ rw quiet refl,
          )
    ]
