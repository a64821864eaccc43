-- ===== src/TcpConnection.antt =====
-- tcp_connection/tcp_connection.h and tcp_connection.cc: the state of a connection and its operations in
-- the loop's thread. What the system calls and the readers of the callbacks do is recorded in
-- `actions`, newest first, and `sent` holds the bytes that the socket took, in order. Whether an
-- optional callback is set is a Boolean. `none` is a fault of the output buffer or a failed `assert`.
pub mod Stream
pub mod Runs
pub mod Lifecycle
pub mod Drain
pub mod Queued
mod Tests
use ryan_network_library.Prelude.{
  ℕ, ◌+◌, ◌*◌, Bool, true, false, not, ◌&&◌, ◌||◌, Option, some, List, [], ◌∷◌, ◌++◌, length, take,
  drop, ltb, leb, ◌==◌, if◌then◌else◌, add64, sub64, ◌>>=◌, ◌>>◌, check,
}
use ryan_network_library.Buffer.{
  Buffer, new, initial_size, append, retrieve, retrieve_all, content_to_string, readable_bytes,
}
use ryan_network_library.Buffer.Fd.{Write, wrote, refused, write_fd, Readv, read_fd, count, error}
use ryan_network_library.Channel.{
  Interest, no_events, enable_reading, disable_reading, enable_writing, disable_writing,
  disable_all, is_none_event, is_reading, is_writing,
}

pub data State : Type 0 where
  disconnected connecting connected disconnecting : State

-- What a connection does to the outside: the queued callbacks of the user, those called at once,
-- `shutdown(SHUT_WR)`, tasks put into the loop's queue, and the removal of the channel.
pub data Action : Type 0 where
  queue_write_complete : Action
  queue_high_watermark : ℕ → Action
  connection_callback : State → Action
  message_callback : Action
  close_callback : Action
  shutdown_write : Action
  queue_force_close : Action
  force_close_later : Action
  remove_channel : Action

pub record Conn : Type 0 where
  pub state : State
  pub reading : Bool
  pub events : Interest
  pub tied : Bool
  pub input : Buffer
  pub output : Buffer
  pub high_watermark : ℕ
  pub has_write_complete : Bool
  pub has_high_watermark : Bool
  pub sent : List ℕ
  pub actions : List Action

-- The constructor of the class, before the server sets the callbacks.
abbrev pub start : Conn
start = record {
  state = connecting;
  reading = true;
  events = no_events;
  tied = false;
  input = new initial_size;
  output = new initial_size;
  high_watermark = 64 * 1024 * 1024;
  has_write_complete = false;
  has_high_watermark = false;
  sent = [];
  actions = [];
}

abbrev pub do_action : Action → Conn → Conn
do_action a c = record c { actions = a ∷ c.actions }

abbrev pub is_connected : State → Bool
is_connected connected = true
is_connected _ = false

abbrev pub is_disconnected : State → Bool
is_disconnected disconnected = true
is_disconnected _ = false

abbrev pub is_disconnecting : State → Bool
is_disconnecting disconnecting = true
is_disconnecting _ = false

-- `state_ == kConnected || state_ == kDisconnecting`.
abbrev pub is_open : State → Bool
is_open s = is_connected s || is_disconnecting s

-- `errno` values of Linux.
abbrev pub ewouldblock : ℕ
ewouldblock = 11

abbrev pub epipe : ℕ
epipe = 32

abbrev pub econnreset : ℕ
econnreset = 104

-- `faultError` after a failed `write`.
abbrev pub is_fault : Write → Bool
is_fault (wrote n) = false
is_fault (refused errno) = not (errno == ewouldblock) && ((errno == epipe) || (errno == econnreset))

-- `nwrote`, 0 after a failure.
abbrev pub nwrote : Write → ℕ
nwrote (wrote n) = n
nwrote (refused errno) = 0

-- `!channel_->IsWriting() && output_buffer_.ReadableBytes() == 0`.
abbrev pub writes_directly : Conn → Bool
writes_directly c = not (is_writing c.events) && (readable_bytes c.output == 0)

-- The callback for an output buffer that reaches the mark with these bytes.
unfoldable pub warn : List ℕ → Conn → Conn
warn rest c =
    let old_len = readable_bytes c.output in
    let total = add64 old_len (length rest) in
    if leb c.high_watermark total && ltb old_len c.high_watermark && c.has_high_watermark
    then do_action (queue_high_watermark total) c
    else c

-- The part of `SendInLoop` behind the direct write: what remains goes to the output buffer.
unfoldable pub keep_rest : List ℕ → Conn → Option Conn
keep_rest rest c = do
  output ← append rest c.output
  some (record (warn rest c) {
    output = output;
    events = if is_writing c.events then c.events else enable_writing c.events;
  })

-- `write` took `nwrote` bytes of the message; all of it, and the completion is queued.
unfoldable pub direct_write : Write → List ℕ → Conn → Conn
direct_write (wrote n) message c =
    let taken = record c { sent = c.sent ++ take n message } in
    if (sub64 (length message) n == 0) && c.has_write_complete
    then do_action queue_write_complete taken
    else taken
direct_write (refused errno) message c = c

-- `SendInLoop(data, len)`; `w` is what `write` returns, where it is called.
unfoldable pub send_in_loop : Write → List ℕ → Conn → Option Conn
send_in_loop w message c =
    if is_disconnected c.state
    then some c
    else (if writes_directly c
        then (let rest = drop (nwrote w) message in
            let c' = direct_write w message c in
            if not (is_fault w) && ltb 0 (length rest) then keep_rest rest c' else some c')
        else (if ltb 0 (length message) then keep_rest message c else some c))

-- `Send(const std::string&)` and `Send(data, len)` in the loop's thread.
unfoldable pub send : Write → List ℕ → Conn → Option Conn
send w message c = if is_connected c.state then send_in_loop w message c else some c

-- `Send(Buffer*)` in the loop's thread: the buffer is emptied.
unfoldable pub send_buffer : Write → Buffer → Conn → Option (Conn × Buffer)
send_buffer w b c =
    if is_connected c.state
    then (do
      message ← content_to_string b
      c' ← send_in_loop w message c
      some (c', retrieve_all b))
    else some (c, b)

unfoldable pub shutdown_in_loop : Conn → Conn
shutdown_in_loop c = if is_writing c.events then c else do_action shutdown_write c

-- `Shutdown` in the loop's thread.
unfoldable pub shutdown : Conn → Conn
unfolding shutdown_in_loop
shutdown c =
    if is_connected c.state then shutdown_in_loop (record c { state = disconnecting }) else c

-- `ForceClose` in the loop's thread.
unfoldable pub force_close : Conn → Conn
force_close c =
    if is_open c.state then do_action queue_force_close (record c { state = disconnecting }) else c

-- `ForceCloseWithDelay` in the loop's thread.
unfoldable pub force_close_with_delay : Conn → Conn
force_close_with_delay c =
    if is_open c.state then do_action force_close_later (record c { state = disconnecting }) else c

unfoldable pub handle_close : Conn → Option Conn
handle_close c = do
  check (is_open c.state)
  some (
      do_action close_callback (
        do_action (connection_callback disconnected)
          (record c { state = disconnected; events = disable_all c.events })))

unfoldable pub force_close_in_loop : Conn → Option Conn
unfolding handle_close
force_close_in_loop c = if is_open c.state then handle_close c else some c

unfoldable pub start_read_in_loop : Conn → Conn
start_read_in_loop c =
    if not c.reading || not (is_reading c.events)
    then record c { events = enable_reading c.events; reading = true }
    else c

unfoldable pub stop_read_in_loop : Conn → Conn
stop_read_in_loop c =
    if c.reading || is_reading c.events
    then record c { events = disable_reading c.events; reading = false }
    else c

unfoldable pub connect_established : Conn → Conn
connect_established c =
    do_action (connection_callback connected)
      (record c { state = connected; tied = true; events = enable_reading c.events })

-- `RemoveChannel` of the poller asserts that the channel asks for nothing.
unfoldable pub connect_destroyed : Conn → Option Conn
connect_destroyed c = do
  let c' =
      if is_connected c.state
      then do_action (connection_callback disconnected)
          (record c { state = disconnected; events = disable_all c.events })
      else c
  check (is_none_event c'.events)
  some (do_action remove_channel c')

-- `r` is what `readv` did. An error is only logged.
unfoldable pub handle_read : Readv → Conn → Option Conn
unfolding handle_close
handle_read r c = do
  (result, input) ← read_fd r c.input
  let c' = record c { input = input }
  elim result [
    | count n ↦ if ltb 0 n then some (do_action message_callback c') else handle_close c'
    | error errno ↦ some c'
  ]

-- The part of `HandleWrite` behind a successful `write`.
abbrev pub after_drain : Conn → Conn
after_drain c =
    let done = record c { events = disable_writing c.events } in
    let told = if c.has_write_complete then do_action queue_write_complete done else done in
    if is_disconnecting c.state then shutdown_in_loop told else told

-- `w` is what `write` does with the readable bytes.
unfoldable pub handle_write : Write → Conn → Option Conn
unfolding shutdown_in_loop
handle_write w c =
    if is_writing c.events
    then (do
      (bytes, result) ← write_fd w c.output
      let c' = record c { output = retrieve (nwrote result) c.output; sent = c.sent ++ bytes }
      some (
          if ltb 0 (nwrote result)
          then (if readable_bytes c'.output == 0 then after_drain c' else c')
          else c))
    else some c
