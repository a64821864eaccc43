-- ===== src/TcpServer/Calls.antt =====
-- What one operation of a connection says to the user and to the server.
use ryan_network_library.Prelude.{
  ℕ, ◌+◌, ◌≡◌, refl, subst, inl, inr, Bool-cases, true, false, ◌&&◌, ◌||◌, some, List, arith, drop,
  if◌then◌else◌,
}
use ryan_network_library.Channel.{
  enable_reading, disable_reading, disable_writing, disable_all, is_writing,
}
use ryan_network_library.TcpConnection.{
  State, Conn, is_connected, is_disconnected, is_open, nwrote, warn, keep_rest, direct_write,
  send_in_loop, send, shutdown_in_loop, shutdown, force_close, force_close_with_delay, handle_close,
  force_close_in_loop, start_read_in_loop, stop_read_in_loop, handle_read, handle_write,
}
use ryan_network_library.TcpConnection.Lifecycle.{
  Call, sends, shuts_down, closes, closes_later, closes_in_loop, starts_reading, stops_reading,
  destroyed, readable, writable, sets_disconnecting, shuts_in_loop, is_stale, call,
}
use ryan_network_library.Buffer.Fd.{Readv, Write}
use ryan_network_library.TcpServer.Life.{ups, downs, closings, is_destroyed}

-- Whether an operation brought an open connection down.
abbrev pub fell : Conn → Conn → ℕ
fell c c' = if is_open c.state && is_disconnected c'.state then 1 else 0

-- What an operation says to the user and the server.
abbrev pub Told : Conn → Conn → Type 0
Told c c' =
    (ups c'.actions ≡ ups c.actions)
    × (downs c'.actions ≡ downs c.actions + fell c c')
    × (closings c'.actions ≡ closings c.actions + fell c c')
    × (is_disconnected c.state ≡ true → is_disconnected c'.state ≡ true)
    × (is_open c.state ≡ true → (is_open c'.state || is_disconnected c'.state) ≡ true)

-- Nothing is said and the state stays.
abbrev Silent : Conn → Conn → Type 0
Silent c c' =
    (ups c'.actions ≡ ups c.actions)
    × (downs c'.actions ≡ downs c.actions)
    × (closings c'.actions ≡ closings c.actions)
    × (c'.state ≡ c.state)

Silent-Told : (c c' : Conn) → Silent c c' → Told c c'
Silent-Told c c' q = go c.state refl c'.state refl q.3
  where
    go : (s : State) → c.state ≡ s → (s' : State) → c'.state ≡ s' → c'.state ≡ c.state → Told c c'
    go s e s' e' f = ground (arith, q)

keep_rest-Silent : (rest : List ℕ) (c c' : Conn) → keep_rest rest c ≡ some c' → Silent c c'
unfolding keep_rest warn
keep_rest-Silent rest c c' e = (ground arith, ground arith, ground arith, ground arith)

direct_write-Silent :
    (w : Write) (message : List ℕ) (c : Conn) → Silent c (direct_write w message c)
unfolding direct_write
direct_write-Silent w message c = (ground arith, ground arith, ground arith, ground arith)

send-Silent :
    (w : Write) (message : List ℕ) (c c' : Conn) → send w message c ≡ some c' → Silent c c'
unfolding send send_in_loop
send-Silent w message c c' e = ground (
  arith,
  keep_rest-Silent message c c',
  keep_rest-Silent (drop (nwrote w) message) (direct_write w message c) c',
  direct_write-Silent w message c,
)

handle_close-Told : (c c' : Conn) → handle_close c ≡ some c' → Told c c'
unfolding handle_close
handle_close-Told c c' e = (ground arith, ground arith, ground arith, ground arith, ground arith)

handle_read-Told : (r : Readv) (c c' : Conn) → handle_read r c ≡ some c' → Told c c'
unfolding handle_read handle_close
handle_read-Told r c c' e = (ground arith, ground arith, ground arith, ground arith, ground arith)

handle_write-Silent : (w : Write) (c c' : Conn) → handle_write w c ≡ some c' → Silent c c'
unfolding handle_write shutdown_in_loop
handle_write-Silent w c c' e = (ground arith, ground arith, ground arith, ground arith)

pub call-Told :
    (k : Call) (c c' : Conn)
    → (is_destroyed k || is_stale k) ≡ false
    → call k c ≡ some c'
    → Told c c'
unfolding call
call-Told (sends w message) c c' keep e = Silent-Told c c' (send-Silent w message c c' e)
call-Told shuts_down c c' keep e =
    unfold shutdown in (ground arith, ground arith, ground arith, ground arith, ground arith)
call-Told closes c c' keep e =
    unfold force_close in (ground arith, ground arith, ground arith, ground arith, ground arith)
call-Told closes_later c c' keep e =
    unfold force_close_with_delay in
    (ground arith, ground arith, ground arith, ground arith, ground arith)
call-Told closes_in_loop c c' keep e =
    unfold force_close_in_loop in
    (ground arith, ground arith, ground arith, ground arith, ground arith)
call-Told starts_reading c c' keep e =
    unfold start_read_in_loop in
    (ground arith, ground arith, ground arith, ground arith, ground arith)
call-Told stops_reading c c' keep e =
    unfold stop_read_in_loop in
    (ground arith, ground arith, ground arith, ground arith, ground arith)
call-Told destroyed c c' keep e = absurd (ground arith)
call-Told (readable r) c c' keep e = handle_read-Told r c c' e
call-Told (writable w) c c' keep e = Silent-Told c c' (handle_write-Silent w c c' e)
call-Told sets_disconnecting c c' keep e = absurd (ground arith)
call-Told shuts_in_loop c c' keep e =
    Silent-Told c c'
      (unfold shutdown_in_loop in (ground arith, ground arith, ground arith, ground arith))

-- Once a connection is down, its channel asks no more for writability.
abbrev pub Idle : Conn → Type 0
Idle c = is_disconnected c.state ≡ true → is_writing c.events ≡ false

send-Idle :
    (w : Write) (message : List ℕ) (c c' : Conn) → send w message c ≡ some c' → Idle c → Idle c'
unfolding send
send-Idle w message c c' e i = elim (Bool-cases (is_connected c.state)) [
  | inl up ↦
      λ d. let (_, _, _, still) = send-Silent w message c c' e in absurd (ground (arith, still))
  | inr down ↦ let same : c ≡ c' = ground arith in subst Idle same i
]

pub call-Idle :
    (k : Call) (c c' : Conn)
    → (is_destroyed k || is_stale k) ≡ false
    → call k c ≡ some c'
    → Idle c
    → Idle c'
unfolding call enable_reading disable_reading disable_writing disable_all
call-Idle (sends w message) c c' keep e i = send-Idle w message c c' e i
call-Idle shuts_down c c' keep e i = λ d. unfold shutdown shutdown_in_loop in ground (arith, i)
call-Idle closes c c' keep e i = λ d. unfold force_close in ground (arith, i)
call-Idle closes_later c c' keep e i = λ d. unfold force_close_with_delay in ground (arith, i)
call-Idle closes_in_loop c c' keep e i =
    λ d. unfold force_close_in_loop handle_close in ground (arith, i)
call-Idle starts_reading c c' keep e i = λ d. unfold start_read_in_loop in ground (arith, i)
call-Idle stops_reading c c' keep e i = λ d. unfold stop_read_in_loop in ground (arith, i)
call-Idle destroyed c c' keep e i = absurd (ground arith)
call-Idle (readable r) c c' keep e i = λ d. unfold handle_read handle_close in ground (arith, i)
call-Idle (writable w) c c' keep e i =
    λ d. unfold handle_write shutdown_in_loop in ground (arith, i)
call-Idle sets_disconnecting c c' keep e i = absurd (ground arith)
call-Idle shuts_in_loop c c' keep e i = λ d. unfold shutdown_in_loop in ground (arith, i)
