-- ===== src/TcpServer/Descriptors.antt =====
-- Every descriptor that the acceptor of net/acceptor.cc takes is accounted for by the server.
use ryan_network_library.Prelude.{
  ℕ, ◌+◌, ◌^◌, ◌<◌, ltb, ltb→lt, lt→ltb, ◌≡◌, refl, ap, ◌∙◌, subst, inl, inr, Bool, true, false,
  not, ◌&&◌, ◌||◌, Option, none, some, List, [], ◌∷◌, ◌++◌, arith, ◌==◌, Bool-cases, Option-cases,
  ◌>>◌, check, times, times-append,
}
use ryan_network_library.Channel.{enable_reading, disable_all, is_none_event, is_reading}
use ryan_network_library.EventLoopThreadPool.{
  EventLoopThreadPool, new_pool, set_thread_num, get_next_loop-some,
}
use ryan_network_library.TcpConnection.{Conn, is_connected, connect_destroyed}
use ryan_network_library.TcpServer.{
  AllNumbered, put_conn-new, AllNumbered-append, find_conn, new_connection,
  remove_connection_in_loop, remove_connection_in_loop_lem,
}
use ryan_network_library.TcpServer.Listening.{
  listen, stop, Accept, accepted, failed, handle_read, Server, new_server, descriptors,
  take_waiting, start_server, Event, thread_num, starting, readable, removal, destruction,
  end_of_server, accept, remove, destroy, end_server, step, run,
}
use ryan_network_library.TcpServer.Places.{
  IsReady, IsReady-IsValid, start-IsReady, get_next_loop-IsReady, take_waiting-times,
  descriptors-append, erase_conn-times,
}

module _ (name_of : ℕ → List ℕ) where
  -- Where every descriptor is that was taken: with a connection of the map, with one that waits for its
  -- destruction, or closed. The acceptor's socket is watched only after a start.
  pub record IsKept (s : Server) : Type 0 where
    pub ready : IsReady s.server.thread_pool
    pub numbered : AllNumbered name_of s.server.next_conn_id s.server.connections
    pub kept :
        (fd : ℕ)
        → times fd s.taken
          ≡ times fd (descriptors s.server.connections) + times fd s.waiting + times fd s.shut
    pub watched : is_reading s.acceptor.events ≡ true → 0 < s.started

  new_server-IsKept : (base_loop : ℕ) → IsKept (new_server base_loop)
  unfolding new_server new_pool
  new_server-IsKept base_loop = record {
    ready = inl refl;
    numbered = tt;
    kept = λ fd. omega arith;
    watched = λ e. absurd (ground arith);
  }

  -- `NewConnection` puts the descriptor at the end of the map.
  new_connection-last :
      (fd : ℕ) (s : Server)
      → ((i j : ℕ) → i < 2 ^ 31 → j < 2 ^ 31 → name_of i ≡ name_of j → i ≡ j)
      → s.server.next_conn_id + 1 < 2 ^ 31
      → IsKept s
      → (io_loop : ℕ) × (pool : EventLoopThreadPool) × (new_connection name_of fd s.server
          ≡ some (
            io_loop,
            record s.server {
              thread_pool = pool;
              next_conn_id = s.server.next_conn_id + 1;
              connections = s.server.connections ++ ((name_of s.server.next_conn_id, fd) ∷ []);
            },
          ))
        × IsReady pool
  unfolding new_connection
  new_connection-last fd s inj int v =
      let room = lt→ltb (s.server.next_conn_id + 1) (2 ^ 31) int in
      let (io_loop, pool, e) =
        get_next_loop-some s.server.thread_pool (IsReady-IsValid s.server.thread_pool v.ready) in
      (
        io_loop,
        pool,
        rw
            (
              e,
              room,
              put_conn-new name_of s.server.next_conn_id fd s.server.connections inj (omega arith)
                  v.numbered,
            )
            refl,
        get_next_loop-IsReady s.server.thread_pool pool io_loop v.ready e,
      )

  -- No connection has a number that an int cannot hold.
  new_connection-full :
      (fd : ℕ) (s : Server)
      → ltb (s.server.next_conn_id + 1) (2 ^ 31) ≡ false
      → IsKept s
      → new_connection name_of fd s.server ≡ none
  unfolding new_connection
  new_connection-full fd s full v =
      let (io_loop, pool, e) =
        get_next_loop-some s.server.thread_pool (IsReady-IsValid s.server.thread_pool v.ready) in
      rw (e, full) refl

  abbrev Leads : Option Server → Type 0
  Leads none = Unit {0}
  Leads (some s) = IsKept s

  check-Leads : (test : Bool) (o : Option Server) → Leads o → Leads (do check test; o)
  check-Leads true o h = h
  check-Leads false o h = tt

  accept-Leads :
      (r : Accept) (s : Server)
      → ((i j : ℕ) → i < 2 ^ 31 → j < 2 ^ 31 → name_of i ≡ name_of j → i ≡ j)
      → IsKept s
      → Leads (accept name_of r s)
  unfolding accept handle_read
  accept-Leads (failed errno) s inj v = v
  accept-Leads (accepted fd) s inj v = elim (Bool-cases s.acceptor.has_new_connection_callback) [
    | inr unset ↦ rw unset (record {
      ready = v.ready;
      numbered = v.numbered;
      kept = λ other. omega (arith, v.kept other);
      watched = v.watched;
    })
    | inl is_set ↦ elim (Bool-cases (ltb (s.server.next_conn_id + 1) (2 ^ 31))) [
      | inr full ↦ rw (is_set, new_connection-full fd s full v) tt
      | inl room ↦
          let int = ltb→lt (s.server.next_conn_id + 1) (2 ^ 31) room in
          let (io_loop, pool, e, ready) = new_connection-last fd s inj int v in
          let at_end =
            λ (other : ℕ). times-append other (descriptors s.server.connections) (fd ∷ []) in
          rw (is_set, e)
            (record {
              ready = ready;
              numbered =
                  AllNumbered-append name_of s.server.next_conn_id fd s.server.connections
                    v.numbered;
              kept = λ other.
                  rw
                    (descriptors-append s.server.connections
                      ((name_of s.server.next_conn_id, fd) ∷ []))
                    (omega (arith, v.kept other, at_end other));
              watched = v.watched;
            })
    ]
  ]

  remove-Leads : (name : List ℕ) (s : Server) → IsKept s → Leads (remove name_of name s)
  unfolding remove remove_connection_in_loop
  remove-Leads name s v = elim (Option-cases (find_conn name s.server.connections)) [
    | inl unknown ↦ rw unknown tt
    | inr (fd, e) ↦
        let erased = λ (other : ℕ). erase_conn-times name s.server.connections fd other e in
        let at_end = λ (other : ℕ). times-append other s.waiting (fd ∷ []) in
        rw e (record {
          ready = v.ready;
          numbered = (remove_connection_in_loop_lem name_of name s.server v.numbered).0;
          kept = λ other. omega (arith, v.kept other, erased other, at_end other);
          watched = v.watched;
        })
  ]

  destroy-Leads : (fd : ℕ) (c : Conn) (s : Server) → IsKept s → Leads (destroy name_of fd c s)
  unfolding destroy
  destroy-Leads fd c s v = elim (Option-cases (take_waiting fd s.waiting)) [
    | inl absent ↦ rw absent tt
    | inr (xs, e) ↦ elim (Option-cases (connect_destroyed c)) [
      | inl aborted ↦ rw (e, aborted) tt
      | inr (c', f) ↦
          rw (e, f)
            (record {
              ready = v.ready;
              numbered = v.numbered;
              kept =
                  λ other. omega (arith, v.kept other, take_waiting-times fd s.waiting xs other e);
              watched = v.watched;
            })
    ]
  ]

  -- Whether the assertion in `ConnectDestroyed` holds.
  abbrev pub can_go : Conn → Bool
  can_go c = is_connected c.state || is_none_event c.events

  connect_destroyed-some :
      (c : Conn) → can_go c ≡ true → (c' : Conn) × (connect_destroyed c ≡ some c')
  unfolding connect_destroyed disable_all is_none_event
  connect_destroyed-some c e = elim (Bool-cases (is_connected c.state)) [
    | inl up ↦ rw up (_, refl)
    | inr down ↦
        let clear : (not c.events.reading && not c.events.writing) ≡ true = ground arith in
        rw (down, clear) (_, refl)
  ]

  connect_destroyed-none : (c : Conn) → can_go c ≡ false → connect_destroyed c ≡ none
  unfolding connect_destroyed
  connect_destroyed-none c e = ground arith

  destroy-none : (fd : ℕ) (c : Conn) (s : Server) → can_go c ≡ false → destroy name_of fd c s ≡ none
  unfolding destroy
  destroy-none fd c s e = elim (Option-cases (take_waiting fd s.waiting)) [
    | inl absent ↦ rw absent refl
    | inr (xs, f) ↦ rw (f, connect_destroyed-none c e) refl
  ]

  end_server-IsKept : (s : Server) → IsKept s → IsKept (end_server name_of s)
  unfolding end_server stop disable_all
  end_server-IsKept s v = record {
    ready = v.ready;
    numbered = tt;
    kept = λ other.
        omega
          (arith, v.kept other, times-append other s.waiting (descriptors s.server.connections));
    watched = λ e. absurd (ground arith);
  }

  start_server-IsKept :
      (has_cb : Bool) (start_loop : ℕ → ℕ) (s : Server)
      → IsKept s
      → IsKept (start_server has_cb start_loop s)
  unfolding start_server listen enable_reading
  start_server-IsKept has_cb start_loop s v = elim (Bool-cases (s.started == 0)) [
    | inl first ↦ rw first (record {
      ready = start-IsReady has_cb start_loop s.server.thread_pool v.ready;
      numbered = v.numbered;
      kept = v.kept;
      watched = λ e. omega arith;
    })
    | inr again ↦ rw again (record {
      ready = v.ready;
      numbered = v.numbered;
      kept = v.kept;
      watched = λ e. omega arith;
    })
  ]

  step-Leads :
      (e : Event) (s : Server)
      → ((i j : ℕ) → i < 2 ^ 31 → j < 2 ^ 31 → name_of i ≡ name_of j → i ≡ j)
      → IsKept s
      → Leads (step name_of e s)
  unfolding step set_thread_num
  step-Leads (thread_num n) s inj v = record {
    ready = v.ready;
    numbered = v.numbered;
    kept = v.kept;
    watched = v.watched;
  }
  step-Leads (starting has_cb start_loop) s inj v = start_server-IsKept has_cb start_loop s v
  step-Leads (readable r) s inj v =
      check-Leads (is_reading s.acceptor.events) (accept name_of r s) (accept-Leads r s inj v)
  step-Leads (removal name) s inj v = remove-Leads name s v
  step-Leads (destruction fd c) s inj v = destroy-Leads fd c s v
  step-Leads end_of_server s inj v = end_server-IsKept s v

  run-Leads :
      (es : List Event) (s : Server)
      → ((i j : ℕ) → i < 2 ^ 31 → j < 2 ^ 31 → name_of i ≡ name_of j → i ≡ j)
      → IsKept s
      → Leads (run name_of es s)
  unfolding run
  run-Leads [] s inj v = v
  run-Leads (e ∷ es) s inj v = elim (Option-cases (step name_of e s)) [
    | inl stuck ↦ rw stuck tt
    | inr (s', f) ↦ rw f (run-Leads es s' inj (subst Leads f (step-Leads e s inj v)))
  ]

  -- The waiting destructions, all run.
  abbrev pub destructions : (ℕ → Conn) → List ℕ → List Event
  destructions conn_of [] = []
  destructions conn_of (fd ∷ fds) = destruction fd (conn_of fd) ∷ destructions conn_of fds

  destructions-run :
      (conn_of : ℕ → Conn) (fds : List ℕ) (s : Server)
      → ((fd : ℕ) → can_go (conn_of fd) ≡ true)
      → s.waiting ≡ fds
      → (s' : Server) × (run name_of (destructions conn_of fds) s ≡ some s')
        × (s'.waiting ≡ [])
        × (s'.server.connections ≡ s.server.connections)
        × (s'.taken ≡ s.taken)
  unfolding run step destroy take_waiting
  destructions-run conn_of [] s go e = (s, refl, e, refl, refl)
  destructions-run conn_of (fd ∷ fds) s go e =
      let (s', f, empty, kept, same_taken) =
        destructions-run conn_of fds (record s { waiting = fds; shut = fd ∷ s.shut }) go refl in
      let (c', g) = connect_destroyed-some (conn_of fd) (go fd) in
      let same : (fd == fd) ≡ true = ground arith in
      (s', rw (e, same, g) f, empty, kept, same_taken)

  all_shut :
      (s : Server)
      → IsKept s
      → s.waiting ≡ []
      → s.server.connections ≡ []
      → (fd : ℕ) → times fd s.shut ≡ times fd s.taken
  all_shut s v empty gone fd =
      omega (arith, v.kept fd, ap (times fd) empty, ap (λ cs. times fd (descriptors cs)) gone)

  -- A server from its constructor through any settings, starts, results of `accept4`, removals,
  -- waiting destructions and even its own end, with names that differ for different ints, and as long
  -- as the numbers of the connections are ints: every
  -- descriptor that the acceptor took is, as often as it was taken, with a connection of the map, with
  -- a connection whose destruction waits, or closed, and the listening socket is watched only after a
  -- start. A destruction aborts if its connection is not connected and its channel asks for events.
  -- And if no connection is so, the end of the server and the destructions that then wait run through
  -- from there, after which every descriptor taken is closed exactly as often as it was taken.
  pub run-IsKept :
      (base_loop : ℕ) (es : List Event) (s : Server)
      → ((i j : ℕ) → i < 2 ^ 31 → j < 2 ^ 31 → name_of i ≡ name_of j → i ≡ j)
      → run name_of es (new_server base_loop) ≡ some s
      → IsKept s
        × ((fd : ℕ) (c : Conn) → can_go c ≡ false → step name_of (destruction fd c) s ≡ none)
        × ((conn_of : ℕ → Conn)
            → ((fd : ℕ) → can_go (conn_of fd) ≡ true)
            → (s' : Server) × (run name_of
                  (end_of_server ∷ destructions conn_of (end_server name_of s).waiting)
                  s
                ≡ some s')
              × (s'.taken ≡ s.taken)
              × ((fd : ℕ) → times fd s'.shut ≡ times fd s.taken))
  unfolding run step
  run-IsKept base_loop es s inj e =
      let v : IsKept s =
        subst Leads e (run-Leads es (new_server base_loop) inj (new_server-IsKept base_loop)) in
      let w = end_server-IsKept s v in
      (
        v,
        λ fd c stuck. destroy-none fd c s stuck,
        λ conn_of go.
            let (s', f, empty, gone, same) =
              destructions-run conn_of (end_server name_of s).waiting (end_server name_of s) go
                refl in
            let v' : IsKept s' = subst Leads f (
              run-Leads (destructions conn_of (end_server name_of s).waiting) (end_server name_of s)
                inj w) in
            (s', f, same, λ fd. all_shut s' v' empty gone fd ∙ ap (times fd) same),
      )
