-- ===== src/TcpServer/Once.antt =====
-- The whole life of a connection: what the user and the server are told of it.
use ryan_network_library.Prelude.{
  ℕ, ◌≡◌, refl, sym, ap, ◌∙◌, ◌||◌, subst, inl, inr, true, false, not, ◌&&◌, Option, none, some,
  List, [], ◌∷◌, arith, ◌==◌, if◌then◌else◌, Bool-cases, Option-cases,
}
use ryan_network_library.TcpConnection.{
  State, disconnected, connecting, connected, disconnecting, Conn, is_disconnected, is_open,
  connect_established, connect_destroyed,
}
use ryan_network_library.TcpConnection.Lifecycle.{Call, is_stale, call}
use ryan_network_library.Channel.{is_none_event, is_writing}
use ryan_network_library.Http.Request.{bytes_eq, bytes_eq_sound, bytes_eq_refl}
use ryan_network_library.TcpServer.{TcpServer, erase_conn, find_conn, remove_connection_in_loop}
use ryan_network_library.TcpServer.Life.{
  Stage, announced, live, closed, removed, gone, Life, ups, downs, closings, is_announced,
  is_destroyed, Event, establishment, removal, destruction, operation, step, run,
}
use ryan_network_library.TcpServer.Calls.{fell, Told, call-Told, Idle, call-Idle}
use ryan_network_library.TcpServer.Finish.{
  CanFinish, removed-CanFinish, closed-CanFinish, live-CanFinish, announced-CanFinish,
}

-- How often the user was told that the connection is up, and that it is down.
abbrev pub up_count : Stage → ℕ
up_count announced = 0
up_count _ = 1

abbrev pub down_count : Stage → ℕ
down_count announced = 0
down_count live = 0
down_count _ = 1

-- The state of the connection.
abbrev pub HasState : Stage → State → Type 0
HasState announced s = s ≡ connecting
HasState live s = is_open s ≡ true
HasState _ s = s ≡ disconnected

-- No two connections of the map have one name.
abbrev pub AllDistinct : List (List ℕ × ℕ) → Type 0
AllDistinct [] = Unit {0}
AllDistinct ((n, c) ∷ cs) = (find_conn n cs ≡ none) × AllDistinct cs

-- The server without the connection of this name: it is not found, every other is found as before, and
-- nothing else has changed.
pub record IsWithout (name : List ℕ) (start s : TcpServer) : Type 0 where
  pub pool : s.thread_pool ≡ start.thread_pool
  pub number : s.next_conn_id ≡ start.next_conn_id
  pub found :
      (other : List ℕ)
      → find_conn other s.connections
        ≡ (if bytes_eq name other then none else find_conn other start.connections)

other_way : (a b : List ℕ) → bytes_eq a b ≡ false → bytes_eq b a ≡ false
other_way a b e = elim (Bool-cases (bytes_eq b a)) [
  | inr off ↦ off
  | inl it ↦
      let same : b ≡ a = bytes_eq_sound b a it in
      absurd (ground (arith, ap (bytes_eq a) same, bytes_eq_refl a))
]

find_conn-erased :
    (name other : List ℕ) (cs : List (List ℕ × ℕ))
    → AllDistinct cs
    → find_conn other (erase_conn name cs)
      ≡ (if bytes_eq name other then none else find_conn other cs)
unfolding erase_conn
find_conn-erased name other [] d = ground arith
find_conn-erased name other ((n, c) ∷ cs) (fresh, d) = elim (Bool-cases (bytes_eq n name)) [
  | inl hit ↦
      let same : n ≡ name = bytes_eq_sound n name hit in
      rw hit (elim (Bool-cases (bytes_eq name other)) [
        | inl it ↦
            let e : name ≡ other = bytes_eq_sound name other it in
            rw it (ap (λ x. find_conn x cs) (sym (same ∙ e)) ∙ fresh)
        | inr away ↦ let apart : bytes_eq n other ≡ false = rw same away in rw (away, apart) refl
      ])
  | inr miss ↦ rw miss (elim (Bool-cases (bytes_eq n other)) [
    | inl it ↦
        let e : n ≡ other = bytes_eq_sound n other it in
        let away : bytes_eq name other ≡ false = rw (← e) (other_way n name miss) in
        rw (it, away) refl
    | inr off ↦ rw off (find_conn-erased name other cs d)
  ])
]

remove-IsWithout :
    (name_of : ℕ → List ℕ) (name : List ℕ) (start : TcpServer)
    → AllDistinct start.connections
    → IsWithout name start (remove_connection_in_loop name_of name start)
unfolding remove_connection_in_loop
remove-IsWithout name_of name start d = record {
  pool = refl;
  number = refl;
  found = λ other. find_conn-erased name other start.connections d;
}

module _ (name_of : ℕ → List ℕ) (name : List ℕ) (start : TcpServer) where
  -- The server as it was, or without the connection.
  abbrev pub HasServer : Stage → TcpServer → Type 0
  HasServer announced s = s ≡ start
  HasServer live s = s ≡ start
  HasServer closed s = s ≡ start
  HasServer _ s = IsWithout name start s

  pub record IsTold (l : Life) : Type 0 where
    pub up : ups l.conn.actions ≡ up_count l.stage
    pub down : downs l.conn.actions ≡ down_count l.stage
    pub closing : closings l.conn.actions ≡ down_count l.stage
    pub state : HasState l.stage l.conn.state
    pub map : HasServer l.stage l.server
    pub idle : Idle l.conn

  disconnected_state : (s : State) → is_disconnected s ≡ true → s ≡ disconnected
  disconnected_state disconnected e = refl
  disconnected_state connecting e = absurd (ground arith)
  disconnected_state connected e = absurd (ground arith)
  disconnected_state disconnecting e = absurd (ground arith)

  -- An operation of a connection that is open.
  live-IsTold :
      (l : Life) (c' : Conn)
      → l.stage ≡ live
      → IsTold l
      → Told l.conn c'
      → Idle c'
      → IsTold (record l {
        conn = c';
        stage = if closings c'.actions == closings l.conn.actions then l.stage else closed;
      })
  live-IsTold l c' e v (u, d, n, still, moved) idle =
      let up : ups l.conn.actions ≡ 1 = v.up ∙ ap up_count e in
      let down : downs l.conn.actions ≡ 0 = v.down ∙ ap down_count e in
      let closing : closings l.conn.actions ≡ 0 = v.closing ∙ ap down_count e in
      let opened : is_open l.conn.state ≡ true = rw e at v.state in
      let place : l.server ≡ start = rw e at v.map in
      elim (Bool-cases (is_disconnected c'.state)) [
        | inl fallen ↦
            let more : (closings c'.actions == closings l.conn.actions) ≡ false =
              ground (arith, n) in
            rw more (record {
              up = omega (arith, u, up);
              down = ground (arith, d);
              closing = ground (arith, n);
              state = disconnected_state c'.state fallen;
              map = place;
              idle = idle;
            })
        | inr standing ↦
            let same : (closings c'.actions == closings l.conn.actions) ≡ true =
              ground (arith, n) in
            rw (same, e)
              (record {
                up = omega (arith, u, up);
                down = ground (arith, d);
                closing = ground (arith, n);
                state = ground (arith, moved opened);
                map = place;
                idle = idle;
              })
      ]

  -- An operation of a connection that is down.
  down-IsTold :
      (l : Life) (c' : Conn)
      → l.conn.state ≡ disconnected
      → (HasState l.stage disconnected)
      → IsTold l
      → Told l.conn c'
      → Idle c'
      → IsTold (record l {
        conn = c';
        stage = if closings c'.actions == closings l.conn.actions then l.stage else closed;
      })
  down-IsTold l c' e h v (u, d, n, still, moved) idle =
      let shut : is_open l.conn.state ≡ false = rw e refl in
      let none_fell : fell l.conn c' ≡ 0 = rw shut refl in
      let same : (closings c'.actions == closings l.conn.actions) ≡ true =
        ground (arith, n, none_fell) in
      let stays = disconnected_state c'.state (still (rw e refl)) in
      rw same (record {
        up = u ∙ v.up;
        down = omega (arith, d, none_fell, v.down);
        closing = omega (arith, n, none_fell, v.closing);
        state = rw stays h;
        map = v.map;
        idle = idle;
      })

  abbrev Leads : Option Life → Type 0
  Leads none = Unit {0}
  Leads (some l) = IsTold l

  establishment-Leads :
      (l : Life) (s : Stage) → l.stage ≡ s → IsTold l → Leads (step name_of name establishment l)
  unfolding step connect_established
  establishment-Leads l announced e v =
      let up : ups l.conn.actions ≡ 0 = v.up ∙ ap up_count e in
      let down : downs l.conn.actions ≡ 0 = v.down ∙ ap down_count e in
      let closing : closings l.conn.actions ≡ 0 = v.closing ∙ ap down_count e in
      let place : l.server ≡ start = rw e at v.map in
      rw e (record {
        up = omega (arith, up);
        down = omega (arith, down);
        closing = omega (arith, closing);
        state = refl;
        map = place;
        idle = λ d. absurd (ground arith);
      })
  establishment-Leads l live e v = rw e tt
  establishment-Leads l closed e v = rw e tt
  establishment-Leads l removed e v = rw e tt
  establishment-Leads l gone e v = rw e tt

  removal-Leads :
      (l : Life) (s : Stage)
      → AllDistinct start.connections
      → l.stage ≡ s
      → IsTold l
      → Leads (step name_of name removal l)
  unfolding step
  removal-Leads l closed distinct e v =
      let place : l.server ≡ start = rw e at v.map in
      rw e (record {
        up = v.up ∙ ap up_count e;
        down = v.down ∙ ap down_count e;
        closing = v.closing ∙ ap down_count e;
        state = rw e at v.state;
        map =
            subst (λ s. IsWithout name start (remove_connection_in_loop name_of name s)) (sym place)
              (remove-IsWithout name_of name start distinct);
        idle = v.idle;
      })
  removal-Leads l announced distinct e v = rw e tt
  removal-Leads l live distinct e v = rw e tt
  removal-Leads l removed distinct e v = rw e tt
  removal-Leads l gone distinct e v = rw e tt

  destruction-Leads :
      (l : Life) (s : Stage) → l.stage ≡ s → IsTold l → Leads (step name_of name destruction l)
  unfolding step connect_destroyed
  destruction-Leads l removed e v =
      let fallen : l.conn.state ≡ disconnected = rw e at v.state in
      let place : IsWithout name start l.server = rw e at v.map in
      let up : ups l.conn.actions ≡ 1 = v.up ∙ ap up_count e in
      let down : downs l.conn.actions ≡ 1 = v.down ∙ ap down_count e in
      let closing : closings l.conn.actions ≡ 1 = v.closing ∙ ap down_count e in
      elim (Bool-cases (is_none_event l.conn.events)) [
        | inl clear ↦
            rw (e, fallen, clear)
              (record {
                up = omega (arith, up);
                down = omega (arith, down);
                closing = omega (arith, closing);
                state = refl;
                map = place;
                idle = λ d. v.idle (rw fallen refl);
              })
        | inr asks ↦ rw (e, fallen, asks) tt
      ]
  destruction-Leads l announced e v = rw e tt
  destruction-Leads l live e v = rw e tt
  destruction-Leads l closed e v = rw e tt
  destruction-Leads l gone e v = rw e tt

  -- An operation in any stage but the first.
  after_call :
      (l : Life) (c' : Conn) (s : Stage)
      → l.stage ≡ s
      → is_announced s ≡ false
      → IsTold l
      → Told l.conn c'
      → Idle c'
      → IsTold (record l {
        conn = c';
        stage = if closings c'.actions == closings l.conn.actions then l.stage else closed;
      })
  after_call l c' announced e n v t i = absurd (ground arith)
  after_call l c' live e n v t i = live-IsTold l c' e v t i
  after_call l c' closed e n v t i = down-IsTold l c' (rw e at v.state) (rw e refl) v t i
  after_call l c' removed e n v t i = down-IsTold l c' (rw e at v.state) (rw e refl) v t i
  after_call l c' gone e n v t i = down-IsTold l c' (rw e at v.state) (rw e refl) v t i

  operation-Leads : (k : Call) (l : Life) → IsTold l → Leads (step name_of name (operation k) l)
  unfolding step
  operation-Leads k l v =
      elim (Bool-cases (not (is_announced l.stage) && not (is_destroyed k || is_stale k))) [
        | inr refused ↦ rw refused tt
        | inl allowed ↦
            let later : is_announced l.stage ≡ false = ground arith in
            let other : (is_destroyed k || is_stale k) ≡ false = ground arith in
            elim (Option-cases (call k l.conn)) [
              | inl fault ↦ rw (allowed, fault) tt
              | inr (c', e) ↦
                  rw (allowed, e)
                    (after_call l c' l.stage refl later v (call-Told k l.conn c' other e)
                      (call-Idle k l.conn c' other e v.idle))
            ]
      ]

  step-Leads :
      (e : Event) (l : Life)
      → AllDistinct start.connections
      → IsTold l
      → Leads (step name_of name e l)
  step-Leads establishment l distinct v = establishment-Leads l l.stage refl v
  step-Leads removal l distinct v = removal-Leads l l.stage distinct refl v
  step-Leads destruction l distinct v = destruction-Leads l l.stage refl v
  step-Leads (operation k) l distinct v = operation-Leads k l v

  run-Leads :
      (es : List Event) (l : Life)
      → AllDistinct start.connections
      → IsTold l
      → Leads (run name_of name es l)
  unfolding run
  run-Leads [] l distinct v = v
  run-Leads (e ∷ es) l distinct v = elim (Option-cases (step name_of name e l)) [
    | inl stuck ↦ rw stuck tt
    | inr (l', f) ↦
        let w : IsTold l' = subst Leads f (step-Leads e l distinct v) in
        rw f (run-Leads es l' distinct w)
  ]

module _ (name_of : ℕ → List ℕ) (name : List ℕ) (start : TcpServer) where
  quiet : (l : Life) → l.conn.state ≡ disconnected → Idle l.conn → is_writing l.conn.events ≡ false
  quiet l e i = i (rw e refl)

  told-CanFinish :
      (l : Life) (s : Stage) → l.stage ≡ s → IsTold name_of name start l → CanFinish name_of name l
  unfolding run
  told-CanFinish l announced e v = announced-CanFinish name_of name l e
  told-CanFinish l live e v = live-CanFinish name_of name l e (rw e at v.state)
  told-CanFinish l closed e v =
      closed-CanFinish name_of name l e (rw e at v.state) (quiet l (rw e at v.state) v.idle)
  told-CanFinish l removed e v =
      removed-CanFinish name_of name l e (rw e at v.state) (quiet l (rw e at v.state) v.idle)
  told-CanFinish l gone e v = ([], l, refl, e)

-- A connection that `NewConnection` has made and whose establishment waits in its loop, on a server whose
-- map has no name twice, and any sequence of waiting tasks, of operations in the loop's thread and of
-- the shutdowns that other threads queued: the user is told that the connection is
-- up exactly once, when it is established, and that it is down exactly once, when it is closed; the
-- server is asked once to remove it, and when the destruction waits it does not find it under its name
-- any more, finds every other connection as before, and is unchanged otherwise. From every such point there are tasks and operations that lead to its destruction.
pub run_once :
    (name_of : ℕ → List ℕ) (name : List ℕ) (es : List Event) (l l' : Life)
    → AllDistinct l.server.connections
    → l.stage ≡ announced
    → l.conn.state ≡ connecting
    → l.conn.actions ≡ []
    → run name_of name es l ≡ some l'
    → IsTold name_of name l.server l' × CanFinish name_of name l'
run_once name_of name es l l' distinct e f g h =
    let v : IsTold name_of name l.server l = record {
      up = rw (e, g) refl;
      down = rw (e, g) refl;
      closing = rw (e, g) refl;
      state = rw e f;
      map = rw e refl;
      idle = λ d. absurd (ground arith);
    } in
    let w : IsTold name_of name l.server l' =
      subst (Leads name_of name l.server) h (run-Leads name_of name l.server es l distinct v) in
    (w, told-CanFinish name_of name l.server l' l'.stage refl w)
