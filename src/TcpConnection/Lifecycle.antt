-- ===== src/TcpConnection/Lifecycle.antt =====
-- The life of a connection of tcp_connection/tcp_connection.cc: how its operations move between the
-- four states, and when the write side is shut down.
use ryan_network_library.Prelude.{
  ℕ, ◌+◌, ◌≤◌, ◌≡◌, refl, ap, ◌≢◌, ◌↔◌, ◌⊎◌, inl, inr, Bool, true, false, ◌&&◌, ◌||◌, Option, some,
  List, [], ◌∷◌, arith, drop,
}
use ryan_network_library.Buffer.Fd.{Write, Readv}
use ryan_network_library.Channel.{disable_writing, is_writing}
use ryan_network_library.TcpConnection.{
  Conn, State, disconnected, connecting, connected, disconnecting, Action, shutdown_write, warn,
  keep_rest, direct_write, send_in_loop, send, shutdown_in_loop, shutdown, is_disconnected,
  force_close, force_close_with_delay, force_close_in_loop, start_read_in_loop, stop_read_in_loop,
  connect_destroyed, handle_read, nwrote, handle_write,
}

-- One operation on a connection that the server has established: one in the loop's thread, or what
-- another thread leaves behind. The last two are the parts of `Shutdown` and `ForceClose` of another
-- thread: its `SetState(kDisconnecting)`, which comes some time after its test of the state, and the task
-- `ShutdownInLoop`, which the loop runs later.
pub data Call : Type 0 where
  sends : Write → List ℕ → Call
  shuts_down closes closes_later closes_in_loop starts_reading stops_reading destroyed : Call
  readable : Readv → Call
  writable : Write → Call
  sets_disconnecting shuts_in_loop : Call

unfoldable pub call : Call → Conn → Option Conn
call (sends w message) c = send w message c
call shuts_down c = some (shutdown c)
call closes c = some (force_close c)
call closes_later c = some (force_close_with_delay c)
call closes_in_loop c = force_close_in_loop c
call starts_reading c = some (start_read_in_loop c)
call stops_reading c = some (stop_read_in_loop c)
call destroyed c = connect_destroyed c
call (readable r) c = handle_read r c
call (writable w) c = handle_write w c
call sets_disconnecting c = some (record c { state = disconnecting })
call shuts_in_loop c = some (shutdown_in_loop c)

abbrev pub is_stale : Call → Bool
is_stale sets_disconnecting = true
is_stale _ = false

abbrev pub is_late : Call → Bool
is_late shuts_in_loop = true
is_late _ = false

-- How far the connection has come.
abbrev pub rank : State → ℕ
rank connecting = 0
rank connected = 1
rank disconnecting = 2
rank disconnected = 3

-- How often the write side was shut down.
abbrev pub is_shutdown : Action → ℕ
is_shutdown shutdown_write = 1
is_shutdown _ = 0

abbrev pub shutdowns : List Action → ℕ
shutdowns [] = 0
shutdowns (a ∷ as') = is_shutdown a + shutdowns as'

-- What the lemmas below say of one operation: the state does not fall, and a shutdown of the write
-- side happens only in a connection that is closing and has nothing to write.
abbrev Orderly : Conn → Conn → Type 0
Orderly c c' =
    (rank c.state ≤ rank c'.state)
    × (shutdowns c'.actions ≢ shutdowns c.actions
        → (is_writing c'.events ≡ false) × (c'.state ≡ disconnecting))

-- Neither happens.
abbrev pub Quiet : Conn → Conn → Type 0
Quiet c c' = (c'.state ≡ c.state) × (shutdowns c'.actions ≡ shutdowns c.actions)

keep_rest-Quiet : (rest : List ℕ) (c c' : Conn) → keep_rest rest c ≡ some c' → Quiet c c'
unfolding keep_rest warn
keep_rest-Quiet rest c c' e = (ground arith, ground arith)

direct_write-Quiet : (w : Write) (message : List ℕ) (c : Conn) → Quiet c (direct_write w message c)
unfolding direct_write
direct_write-Quiet w message c = (ground arith, ground arith)

pub send_in_loop-Quiet :
    (w : Write) (message : List ℕ) (c c' : Conn) → send_in_loop w message c ≡ some c' → Quiet c c'
unfolding send_in_loop
send_in_loop-Quiet w message c c' e = ground (
  arith,
  keep_rest-Quiet message c c',
  keep_rest-Quiet (drop (nwrote w) message) (direct_write w message c) c',
  direct_write-Quiet w message c,
)

Quiet-Orderly : (c c' : Conn) → Quiet c c' → Orderly c c'
Quiet-Orderly c c' q = (omega (arith, ap rank q.0), λ h. absurd (h q.1))

send-Quiet : (w : Write) (message : List ℕ) (c c' : Conn) → send w message c ≡ some c' → Quiet c c'
unfolding send
send-Quiet w message c c' e = ground (arith, send_in_loop-Quiet w message c c')

handle_read-Orderly : (r : Readv) (c c' : Conn) → handle_read r c ≡ some c' → Orderly c c'
unfolding handle_read
handle_read-Orderly r c c' e = (ground arith, λ h. absurd (ground arith))

handle_write-Orderly : (w : Write) (c c' : Conn) → handle_write w c ≡ some c' → Orderly c c'
unfolding handle_write disable_writing
handle_write-Orderly w c c' e = (ground arith, λ h. (ground arith, ground arith))

in_thread :
    (k : Call) (c c' : Conn) → (is_stale k || is_late k) ≡ false → call k c ≡ some c' → Orderly c c'
unfolding call
in_thread (sends w message) c c' loc e = Quiet-Orderly c c' (send-Quiet w message c c' e)
in_thread shuts_down c c' loc e =
    unfold shutdown in (ground arith, λ h. (ground arith, ground arith))
in_thread closes c c' loc e = unfold force_close in (ground arith, λ h. absurd (ground arith))
in_thread closes_later c c' loc e =
    unfold force_close_with_delay in (ground arith, λ h. absurd (ground arith))
in_thread closes_in_loop c c' loc e =
    unfold force_close_in_loop in (ground arith, λ h. absurd (ground arith))
in_thread starts_reading c c' loc e =
    unfold start_read_in_loop in (ground arith, λ h. absurd (ground arith))
in_thread stops_reading c c' loc e =
    unfold stop_read_in_loop in (ground arith, λ h. absurd (ground arith))
in_thread destroyed c c' loc e =
    unfold connect_destroyed in (ground arith, λ h. absurd (ground arith))
in_thread (readable r) c c' loc e = handle_read-Orderly r c c' e
in_thread (writable w) c c' loc e = handle_write-Orderly w c c' e
in_thread sets_disconnecting c c' loc e = absurd (ground arith)
in_thread shuts_in_loop c c' loc e = absurd (ground arith)

of_thread :
    (k : Call) (c c' : Conn)
    → is_stale k ≡ false
    → is_late k ≡ false
    → call k c ≡ some c'
    → (rank c.state ≤ rank c'.state ↔ ((is_stale k && is_disconnected c.state) ≡ false))
      × (shutdowns c'.actions ≢ shutdowns c.actions
          → (is_writing c'.events ≡ false)
            × ((c'.state ≡ disconnecting) ⊎ ((is_late k ≡ true) × (c'.state ≡ c.state))))
of_thread k c c' fresh soon e =
    let (up, shut) = in_thread k c c' (rw (fresh, soon) refl) e in
    ((λ h. rw fresh refl, λ h. up), λ h. ((shut h).0, inl (shut h).1))

-- No operation on an established connection brings it back to an earlier state, in the order connected,
-- disconnecting, disconnected, but the `SetState` of another thread, which does so exactly if the
-- connection is disconnected by then. And an operation that shuts the write side down leaves the
-- channel not asking for writability and the connection disconnecting, unless it is the task that
-- another thread queued, which leaves the state as it is.
pub call-Orderly :
    (k : Call) (c c' : Conn)
    → call k c ≡ some c'
    → (rank c.state ≤ rank c'.state ↔ ((is_stale k && is_disconnected c.state) ≡ false))
      × (shutdowns c'.actions ≢ shutdowns c.actions
          → (is_writing c'.events ≡ false)
            × ((c'.state ≡ disconnecting) ⊎ ((is_late k ≡ true) × (c'.state ≡ c.state))))
unfolding call
call-Orderly sets_disconnecting c c' e =
    ((λ h. ground arith, λ h. ground arith), λ h. absurd (ground arith))
call-Orderly shuts_in_loop c c' e =
    unfold shutdown_in_loop in
    ((λ h. refl, λ h. ground arith), λ h. (ground arith, inr (refl, ground arith)))
call-Orderly (sends w message) c c' e = of_thread (sends w message) c c' refl refl e
call-Orderly shuts_down c c' e = of_thread shuts_down c c' refl refl e
call-Orderly closes c c' e = of_thread closes c c' refl refl e
call-Orderly closes_later c c' e = of_thread closes_later c c' refl refl e
call-Orderly closes_in_loop c c' e = of_thread closes_in_loop c c' refl refl e
call-Orderly starts_reading c c' e = of_thread starts_reading c c' refl refl e
call-Orderly stops_reading c c' e = of_thread stops_reading c c' refl refl e
call-Orderly destroyed c c' e = of_thread destroyed c c' refl refl e
call-Orderly (readable r) c c' e = of_thread (readable r) c c' refl refl e
call-Orderly (writable w) c c' e = of_thread (writable w) c c' refl refl e
