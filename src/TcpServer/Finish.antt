-- ===== src/TcpServer/Finish.antt =====
-- Every connection can be brought to its destruction.
use ryan_network_library.Prelude.{ℕ, ◌≡◌, refl, true, false, some, List, [], ◌∷◌, arith, ◌==◌}
use ryan_network_library.Channel.{disable_reading, disable_all, is_none_event, is_writing}
use ryan_network_library.TcpConnection.{
  Conn, disconnected, connection_callback, close_callback, is_open, do_action, force_close_in_loop,
  handle_close, stop_read_in_loop, remove_channel, connect_established, connect_destroyed,
}
use ryan_network_library.TcpConnection.Lifecycle.{closes_in_loop, stops_reading, call}
use ryan_network_library.TcpServer.{remove_connection_in_loop}
use ryan_network_library.TcpServer.Life.{
  announced, live, closed, removed, gone, Life, closings, Event, establishment, removal,
  destruction, operation, step, run,
}

-- A schedule that ends the life.
abbrev pub CanFinish : (ℕ → List ℕ) → List ℕ → Life → Type 0
CanFinish name_of name l =
    (es : List Event) × (l' : Life) × (run name_of name es l ≡ some l') × (l'.stage ≡ gone)

module _ (name_of : ℕ → List ℕ) (name : List ℕ) where
  destroy_down :
      (c : Conn)
      → c.state ≡ disconnected
      → is_none_event c.events ≡ true
      → connect_destroyed c ≡ some (do_action remove_channel c)
  unfolding connect_destroyed
  destroy_down c down clear = ground arith

  -- A connection that is down can have been told to read again: that is stopped first.
  pub removed-CanFinish :
      (l : Life)
      → l.stage ≡ removed
      → l.conn.state ≡ disconnected
      → is_writing l.conn.events ≡ false
      → CanFinish name_of name l
  unfolding run step call stop_read_in_loop disable_reading is_none_event
  removed-CanFinish l e down quiet =
      let c' = stop_read_in_loop l.conn in
      let state : c'.state ≡ disconnected = ground arith in
      let clear : is_none_event c'.events ≡ true = ground arith in
      let same : (closings c'.actions == closings l.conn.actions) ≡ true = ground arith in
      (
        operation stops_reading ∷ destruction ∷ [],
        record l { conn = do_action remove_channel c'; stage = gone },
        rw (e, same, destroy_down c' state clear) refl,
        refl,
      )

  pub closed-CanFinish :
      (l : Life)
      → l.stage ≡ closed
      → l.conn.state ≡ disconnected
      → is_writing l.conn.events ≡ false
      → CanFinish name_of name l
  unfolding run step
  closed-CanFinish l e down quiet =
      let l1 = record l {
        server = remove_connection_in_loop name_of name l.server;
        stage = removed;
      } in
      let (es, l', f, g) = removed-CanFinish l1 refl down quiet in (removal ∷ es, l', rw e f, g)

  pub live-CanFinish :
      (l : Life) → l.stage ≡ live → is_open l.conn.state ≡ true → CanFinish name_of name l
  unfolding run step call force_close_in_loop handle_close disable_all
  live-CanFinish l e opened =
      let c' = do_action close_callback (
        do_action (connection_callback disconnected)
          (record l.conn { state = disconnected; events = disable_all l.conn.events })) in
      let more : (closings c'.actions == closings l.conn.actions) ≡ false = ground arith in
      let (es, l', f, g) =
        closed-CanFinish (record l { conn = c'; stage = closed }) refl refl refl in
      (operation closes_in_loop ∷ es, l', rw (e, opened, more) f, g)

  pub announced-CanFinish : (l : Life) → l.stage ≡ announced → CanFinish name_of name l
  unfolding run step connect_established
  announced-CanFinish l e =
      let l1 = record l { conn = connect_established l.conn; stage = live } in
      let (es, l', f, g) = live-CanFinish l1 refl refl in (establishment ∷ es, l', rw e f, g)
