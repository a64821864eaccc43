-- ===== src/TcpServer/Life.antt =====
-- A connection from NewConnection to ConnectDestroyed: the tasks that TcpServer hands to the loops, and
-- between them the operations of the connection, in whatever order they come. These are the operations
-- in the loop's thread and the tasks that Shutdown of another thread queues; that another thread sets the
-- state is left out.
use ryan_network_library.Prelude.{
  ℕ, ◌+◌, Bool, true, false, not, ◌&&◌, ◌||◌, Option, some, List, [], ◌∷◌, ◌==◌, if◌then◌else◌,
  ◌>>=◌, ◌>>◌, check,
}
use ryan_network_library.TcpConnection.{
  disconnected, connected, Action, connection_callback, close_callback, Conn, connect_established,
  connect_destroyed,
}
use ryan_network_library.TcpConnection.Lifecycle.{Call, destroyed, is_stale, call}
use ryan_network_library.TcpServer.{TcpServer, remove_connection_in_loop}

-- Which task of the connection waits in a loop: the establishing, none, the removal from the map, the
-- destruction, none any more.
pub data Stage : Type 0 where
  announced live closed removed gone : Stage

pub record Life : Type 0 where
  pub server : TcpServer
  pub conn : Conn
  pub stage : Stage

-- How often the user was told that the connection is up.
abbrev pub is_up : Action → ℕ
is_up (connection_callback connected) = 1
is_up _ = 0

abbrev pub ups : List Action → ℕ
ups [] = 0
ups (a ∷ as') = is_up a + ups as'

-- How often the user was told that the connection is down.
abbrev pub is_down : Action → ℕ
is_down (connection_callback disconnected) = 1
is_down _ = 0

abbrev pub downs : List Action → ℕ
downs [] = 0
downs (a ∷ as') = is_down a + downs as'

-- How often the server was asked to remove the connection.
abbrev pub is_closing : Action → ℕ
is_closing close_callback = 1
is_closing _ = 0

abbrev pub closings : List Action → ℕ
closings [] = 0
closings (a ∷ as') = is_closing a + closings as'

abbrev pub is_announced : Stage → Bool
is_announced announced = true
is_announced _ = false

abbrev pub is_closed : Stage → Bool
is_closed closed = true
is_closed _ = false

abbrev pub is_removed : Stage → Bool
is_removed removed = true
is_removed _ = false

abbrev pub is_destroyed : Call → Bool
is_destroyed destroyed = true
is_destroyed _ = false

pub data Event : Type 0 where
  establishment removal destruction : Event
  operation : Call → Event

module _ (name_of : ℕ → List ℕ) (name : List ℕ) where
  -- A task that waits is run, or an operation of the connection, whose close callback is
  -- `RemoveConnection`: it queues the removal.
  unfoldable pub step : Event → Life → Option Life
  unfolding connect_established remove_connection_in_loop connect_destroyed
  step establishment l = do
    check (is_announced l.stage)
    some (record l { conn = connect_established l.conn; stage = live })
  step (operation k) l = do
    check (not (is_announced l.stage) && not (is_destroyed k || is_stale k))
    conn ← call k l.conn
    some (record l {
      conn = conn;
      stage = if closings conn.actions == closings l.conn.actions then l.stage else closed;
    })
  step removal l = do
    check (is_closed l.stage)
    some (record l { server = remove_connection_in_loop name_of name l.server; stage = removed })
  step destruction l = do
    check (is_removed l.stage)
    conn ← connect_destroyed l.conn
    some (record l { conn = conn; stage = gone })

  unfoldable pub run : List Event → Life → Option Life
  unfolding step
  run [] l = some l
  run (e ∷ es) l = do l' ← step e l; run es l'
