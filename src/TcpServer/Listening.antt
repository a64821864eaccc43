-- ===== src/TcpServer/Listening.antt =====
-- net/acceptor.h, acceptor.cc, socket.cc and the start and the end of tcp_connection/tcp_server.cc: which
-- descriptors `accept4` gives to the server, and what becomes of each. A connection is known by its
-- descriptor, which the destructor of its `Socket` closes.
use ryan_network_library.Prelude.{
  ℕ, ◌+◌, Bool, true, false, Option, none, some, List, [], ◌∷◌, ◌++◌, ◌==◌, if◌then◌else◌, ◌>>=◌,
  ◌>>◌, check,
}
use ryan_network_library.Channel.{Interest, no_events, enable_reading, disable_all, is_reading}
use ryan_network_library.EventLoopThreadPool.{new_pool, set_thread_num, start}
use ryan_network_library.TcpConnection.{Conn, connect_destroyed}
use ryan_network_library.TcpServer.{TcpServer, new_connection, remove_connection_in_loop, find_conn}

pub record Acceptor : Type 0 where
  pub listenning : Bool
  pub events : Interest
  pub has_new_connection_callback : Bool

-- The constructor of the class.
unfoldable pub new_acceptor : Acceptor
new_acceptor = record {
  listenning = false;
  events = no_events;
  has_new_connection_callback = false;
}

unfoldable pub set_new_connection_callback : Acceptor → Acceptor
set_new_connection_callback a = record a { has_new_connection_callback = true }

-- `Listen`, where `listen(2)` succeeds.
unfoldable pub listen : Acceptor → Acceptor
listen a = record a { listenning = true; events = enable_reading a.events }

-- The destructor of the class.
unfoldable pub stop : Acceptor → Acceptor
stop a = record a { events = disable_all a.events }

-- What `accept4` gives: a descriptor, or a failure with `errno`.
pub data Accept : Type 0 where
  accepted : ℕ → Accept
  failed : ℕ → Accept

-- What `HandleRead` does: it calls the callback, closes the descriptor, or only writes a log line.
pub data Handled : Type 0 where
  hands_over : ℕ → Handled
  shuts : ℕ → Handled
  logs : ℕ → Handled

unfoldable pub handle_read : Accept → Acceptor → Handled
handle_read (accepted fd) a = if a.has_new_connection_callback then hands_over fd else shuts fd
handle_read (failed errno) a = logs errno

-- The server with its acceptor. `taken` are the descriptors that `accept4` gave, `established` those
-- whose `ConnectEstablished` was given to a loop, with that loop, `waiting` those whose
-- `ConnectDestroyed` waits in a loop, `shut` the closed ones.
pub record Server : Type 0 where
  pub server : TcpServer
  pub acceptor : Acceptor
  pub started : ℕ
  pub taken : List ℕ
  pub established : List (ℕ × ℕ)
  pub waiting : List ℕ
  pub shut : List ℕ

-- The constructor of `TcpServer`.
unfoldable pub new_server : ℕ → Server
unfolding new_acceptor set_new_connection_callback
new_server base_loop = record {
  server = record { thread_pool = new_pool base_loop; next_conn_id = 1; connections = [] };
  acceptor = set_new_connection_callback new_acceptor;
  started = 0;
  taken = [];
  established = [];
  waiting = [];
  shut = [];
}

abbrev pub descriptors : List (List ℕ × ℕ) → List ℕ
descriptors [] = []
descriptors ((name, fd) ∷ cs) = fd ∷ descriptors cs

-- One waiting destruction less; `none` if it does not wait.
unfoldable pub take_waiting : ℕ → List ℕ → Option (List ℕ)
take_waiting fd [] = none
take_waiting fd (x ∷ xs) =
    let rest = take_waiting fd xs in if x == fd then some xs else (do xs' ← rest; some (x ∷ xs'))

-- `Start`, in the thread of the server's loop, so that `Listen` runs at once; a thread `i` gives the
-- loop `start_loop i`.
unfoldable pub start_server : Bool → (ℕ → ℕ) → Server → Server
unfolding listen
start_server has_cb start_loop s =
    if s.started == 0
    then record s {
      server = record s.server { thread_pool = (start has_cb start_loop s.server.thread_pool).1 };
      acceptor = listen s.acceptor;
      started = s.started + 1;
    }
    else record s { started = s.started + 1 }

-- What happens to a server: a call of `SetThreadNum` or `Start`, a readable listening socket, the
-- removal of a connection, a destruction that waits, with the connection as it is by then.
pub data Event : Type 0 where
  thread_num : ℕ → Event
  starting : Bool → (ℕ → ℕ) → Event
  readable : Accept → Event
  removal : List ℕ → Event
  destruction : ℕ → Conn → Event
  end_of_server : Event

module _ (name_of : ℕ → List ℕ) where
  -- `HandleRead` of the acceptor, whose callback is `NewConnection`.
  unfoldable pub accept : Accept → Server → Option Server
  unfolding handle_read
  accept r s = elim (handle_read r s.acceptor) [
    | hands_over fd ↦ (do
      (io_loop, server) ← new_connection name_of fd s.server
      some (record s {
        server = server;
        taken = fd ∷ s.taken;
        established = (fd, io_loop) ∷ s.established;
      }))
    | shuts fd ↦ some (record s { taken = fd ∷ s.taken; shut = fd ∷ s.shut })
    | logs errno ↦ some s
  ]

  -- `RemoveConnectionInLoop` of a connection, by its name; `none` if the map does not have it.
  unfoldable pub remove : List ℕ → Server → Option Server
  remove name s = do
    fd ← find_conn name s.server.connections
    some (record s {
      server = remove_connection_in_loop name_of name s.server;
      waiting = s.waiting ++ (fd ∷ []);
    })

  -- `ConnectDestroyed` of a connection of which no other reference is left: if its assertion holds, the
  -- connection goes, and with it the socket is closed.
  unfoldable pub destroy : ℕ → Conn → Server → Option Server
  unfolding take_waiting connect_destroyed
  destroy fd c s = do
    waiting ← take_waiting fd s.waiting
    destroyed ← connect_destroyed c
    some (record s { waiting = waiting; shut = fd ∷ s.shut })

  -- The destructor of `TcpServer`, whose members, the acceptor among them, are destroyed behind its body.
  unfoldable pub end_server : Server → Server
  unfolding stop
  end_server s = record s {
    server = record s.server { connections = [] };
    acceptor = stop s.acceptor;
    waiting = s.waiting ++ descriptors s.server.connections;
  }

  -- The poller reports only a channel that is watched.
  unfoldable pub step : Event → Server → Option Server
  unfolding start_server accept remove destroy end_server
  step (thread_num n) s = some (record s {
    server = record s.server { thread_pool = set_thread_num n s.server.thread_pool };
  })
  step (starting has_cb start_loop) s = some (start_server has_cb start_loop s)
  step (readable r) s = do check (is_reading s.acceptor.events); accept r s
  step (removal name) s = remove name s
  step (destruction fd c) s = destroy fd c s
  step end_of_server s = some (end_server s)

  unfoldable pub run : List Event → Server → Option Server
  unfolding step
  run [] s = some s
  run (e ∷ es) s = do s' ← step e s; run es s'
