-- ===== src/TcpServer/Tests.antt =====
-- The theorems on the server's connections at a concrete server.
use ryan_network_library.Prelude.{times, ◌^◌, ◌<◌}
use ryan_network_library.Prelude.{
  ℕ, ◌+◌, false, ◌≡◌, refl, ap, true, none, some, List, [], ◌∷◌, get_or,
}
use ryan_network_library.EventLoopThreadPool.{
  new_pool, set_thread_num, start as start_pool, get_next_loop,
}
use ryan_network_library.Channel.{no_events, is_none_event, enable_reading, disable_all}
use ryan_network_library.TcpConnection.{
  Conn, start, connect_destroyed, do_action, connect_established, force_close_in_loop, disconnected,
  connection_callback, close_callback,
}
use ryan_network_library.TcpConnection.Lifecycle.{call, closes_in_loop}
use ryan_network_library.TcpServer.Life.{
  Life, announced, removed, Event, establishment, operation, removal, run,
}
use ryan_network_library.TcpServer.Finish.{CanFinish}
use ryan_network_library.TcpServer.Once.{AllDistinct, IsTold, run_once}
use ryan_network_library.TcpServer.{TcpServer, new_connection, remove_connection_in_loop}
use ryan_network_library.TcpServer.Listening.{
  Server, new_server, accepted, failed, end_of_server, end_server, thread_num, starting, readable,
  removal as removed_conn, destruction as destroyed_conn, step as step_server, run as run_server,
  Event as ServerEvent,
}
use ryan_network_library.TcpServer.Descriptors.{IsKept, can_go, destructions, run-IsKept}

abbrev name_of : ℕ → List ℕ
name_of i = b'#' ∷ i ∷ []

name_of-injective : (i j : ℕ) → i < 2 ^ 31 → j < 2 ^ 31 → name_of i ≡ name_of j → i ≡ j
name_of-injective i j k l e = ap (λ l. get_or l 1 0) e

abbrev server : TcpServer
server = record {
  thread_pool = record {
    base_loop = 9;
    started = true;
    num_threads = 2;
    next = 1;
    loops = 20 ∷ 21 ∷ [];
  };
  next_conn_id = 3;
  connections = (name_of 1, 101) ∷ [];
}

-- A new connection, and what becomes of it until it is taken out of the map.
abbrev born : Life
born = record { server = server; conn = start; stage = announced }

abbrev down_conn : Conn
down_conn = do_action close_callback (
    do_action (connection_callback disconnected)
      (record (connect_established start) { state = disconnected; events = no_events }))

abbrev after : Life
after = record {
  server = remove_connection_in_loop name_of (name_of 1) server;
  conn = down_conn;
  stage = removed;
}

abbrev events : List Event
events = establishment ∷ operation closes_in_loop ∷ removal ∷ []

events-run : run name_of (name_of 1) events born ≡ some after
unfolding run connect_established call force_close_in_loop disable_all
events-run = refl

only_one : AllDistinct server.connections
only_one = (refl, tt)

run_once_example : IsTold name_of (name_of 1) server after × CanFinish name_of (name_of 1) after
run_once_example = run_once name_of (name_of 1) events born after only_one refl refl refl events-run

-- Two connections, one of which is closed again, and a failure of `accept4`.
abbrev evening : List ServerEvent
evening =
    thread_num 2
    ∷ starting false (λ i. i + 20)
    ∷ readable (accepted 7)
    ∷ readable (accepted 8)
    ∷ removed_conn (name_of 1)
    ∷ readable (failed 24)
    ∷ destroyed_conn 7 down_conn
    ∷ starting false (λ i. i)
    ∷ []

abbrev at_night : Server
at_night = record {
  server = record {
    thread_pool = record {
      base_loop = 9;
      started = true;
      num_threads = 2;
      next = 0;
      loops = 20 ∷ 21 ∷ [];
    };
    next_conn_id = 3;
    connections = (name_of 2, 8) ∷ [];
  };
  acceptor = record {
    listenning = true;
    events = record { reading = true; writing = false };
    has_new_connection_callback = true;
  };
  started = 2;
  taken = 8 ∷ 7 ∷ [];
  established = (8, 21) ∷ (7, 20) ∷ [];
  waiting = [];
  shut = 7 ∷ [];
}

evening-run : run_server name_of evening (new_server 9) ≡ some at_night
unfolding connect_destroyed is_none_event run_server new_server enable_reading new_connection
    get_next_loop start_pool set_thread_num new_pool remove_connection_in_loop
evening-run = refl

run-IsKept_example :
    IsKept name_of at_night
    × ((fd : ℕ) (c : Conn)
        → can_go name_of c ≡ false
        → step_server name_of (destroyed_conn fd c) at_night ≡ none)
    × ((conn_of : ℕ → Conn)
        → ((fd : ℕ) → can_go name_of (conn_of fd) ≡ true)
        → (s' : Server) × (run_server name_of
              (end_of_server ∷ destructions name_of conn_of (end_server name_of at_night).waiting)
              at_night
            ≡ some s')
          × (s'.taken ≡ at_night.taken)
          × ((fd : ℕ) → times fd s'.shut ≡ times fd at_night.taken))
run-IsKept_example = run-IsKept name_of 9 evening at_night name_of-injective evening-run
