-- ===== src/TcpServer.antt =====
-- tcp_connection/tcp_server.h and tcp_server.cc: the map of the connections by their names, and the loop
-- that each is given to. `name_of` writes a connection's number into a name, as `snprintf` does; a
-- connection is its address.
pub mod Life
pub mod Calls
pub mod Finish
pub mod Once
pub mod Listening
pub mod Places
pub mod Descriptors
mod Tests
use ryan_network_library.Prelude.{
  false, ℕ, ◌+◌, ◌-◌, ◌^◌, ◌<◌, ltb, lt→ltb, check, ◌≡◌, refl, sym, ◌∙◌, inl, inr, Bool, Option,
  none, some, List, [], ◌∷◌, ◌++◌, arith, length, length-append, if◌then◌else◌, Bool-cases, ◌>>=◌,
  ◌>>◌,
}
use ryan_network_library.EventLoopThreadPool.{
  EventLoopThreadPool, IsValid, get_next_loop, get_next_loop-some,
}
use ryan_network_library.Http.Request.{bytes_eq, bytes_eq_refl, bytes_eq_sound}

pub record TcpServer : Type 0 where
  pub thread_pool : EventLoopThreadPool
  pub next_conn_id : ℕ
  pub connections : List (List ℕ × ℕ)

-- `connections_[name] = conn`.
unfoldable pub put_conn : List ℕ → ℕ → List (List ℕ × ℕ) → List (List ℕ × ℕ)
put_conn name conn [] = (name, conn) ∷ []
put_conn name conn ((n, c) ∷ cs) =
    if bytes_eq n name then (n, conn) ∷ cs else (n, c) ∷ put_conn name conn cs

-- `connections_.erase(name)`.
unfoldable pub erase_conn : List ℕ → List (List ℕ × ℕ) → List (List ℕ × ℕ)
erase_conn name [] = []
erase_conn name ((n, c) ∷ cs) = if bytes_eq n name then cs else (n, c) ∷ erase_conn name cs

abbrev pub find_conn : List ℕ → List (List ℕ × ℕ) → Option ℕ
find_conn name [] = none
find_conn name ((n, c) ∷ cs) = if bytes_eq n name then some c else find_conn name cs

module _ (name_of : ℕ → List ℕ) where
  -- `NewConnection`: the loop in which `ConnectEstablished` is run, and the server. `none` where the
  -- number of the connection, an int, would overflow.
  unfoldable pub new_connection : ℕ → TcpServer → Option (ℕ × TcpServer)
  unfolding put_conn
  new_connection conn s = do
    (io_loop, pool) ← get_next_loop s.thread_pool
    check (ltb (s.next_conn_id + 1) (2 ^ 31))
    some (
      io_loop,
      record s {
        thread_pool = pool;
        next_conn_id = s.next_conn_id + 1;
        connections = put_conn (name_of s.next_conn_id) conn s.connections;
      },
    )

  -- `RemoveConnectionInLoop`, for the connection with this name.
  unfoldable pub remove_connection_in_loop : List ℕ → TcpServer → TcpServer
  unfolding erase_conn
  remove_connection_in_loop name s = record s { connections = erase_conn name s.connections }

  -- Every name in the map is that of a smaller number.
  abbrev pub AllNumbered : ℕ → List (List ℕ × ℕ) → Type 0
  AllNumbered n [] = Unit {0}
  AllNumbered n ((name, c) ∷ cs) = ((i : ℕ) × (name ≡ name_of i) × (i < n)) × AllNumbered n cs

  AllNumbered-suc : (n : ℕ) (cs : List (List ℕ × ℕ)) → AllNumbered n cs → AllNumbered (n + 1) cs
  AllNumbered-suc n [] h = tt
  AllNumbered-suc n ((name, c) ∷ cs) ((i, e, small), h) =
      ((i, e, omega arith), AllNumbered-suc n cs h)

  pub put_conn-new :
      (n conn : ℕ) (cs : List (List ℕ × ℕ))
      → ((i j : ℕ) → i < 2 ^ 31 → j < 2 ^ 31 → name_of i ≡ name_of j → i ≡ j)
      → n < 2 ^ 31
      → AllNumbered n cs
      → put_conn (name_of n) conn cs ≡ cs ++ ((name_of n, conn) ∷ [])
  unfolding put_conn
  put_conn-new n conn [] inj int h = refl
  put_conn-new n conn ((name, c) ∷ cs) inj int ((i, e, small), h) =
      elim (Bool-cases (bytes_eq name (name_of n))) [
        | inl same ↦ absurd (
            omega (arith, inj i n (omega arith) int (sym e ∙ bytes_eq_sound name (name_of n) same)))
        | inr other ↦ rw (other, put_conn-new n conn cs inj int h) refl
      ]

  pub AllNumbered-append :
      (n conn : ℕ) (cs : List (List ℕ × ℕ))
      → AllNumbered n cs
      → AllNumbered (n + 1) (cs ++ ((name_of n, conn) ∷ []))
  AllNumbered-append n conn [] h = ((n, refl, omega arith), tt)
  AllNumbered-append n conn ((name, c) ∷ cs) ((i, e, small), h) =
      ((i, e, omega arith), AllNumbered-append n conn cs h)

  find_conn-put_conn :
      (name other : List ℕ) (conn : ℕ) (cs : List (List ℕ × ℕ))
      → find_conn other (put_conn name conn cs)
        ≡ (if bytes_eq name other then some conn else find_conn other cs)
  unfolding put_conn
  find_conn-put_conn name other conn [] = refl
  find_conn-put_conn name other conn ((n, c) ∷ cs) = elim (Bool-cases (bytes_eq n name)) [
    | inl hit ↦ rw (hit, bytes_eq_sound n name hit) (ground arith)
    | inr miss ↦ rw miss (
        ground (
          arith,
          find_conn-put_conn name other conn cs,
          bytes_eq_sound n other,
          bytes_eq_sound name other,
          bytes_eq_refl name,
        ))
  ]

  -- A server whose connections have smaller numbers than the next, with a valid pool, a next
  -- number that does not overflow, and names that differ for different ints: a new connection goes to the pool's next loop, is found under its
  -- name, replaces no other, and the numbers stay below the next.
  pub new_connection_lem :
      (conn : ℕ) (s : TcpServer)
      → ((i j : ℕ) → i < 2 ^ 31 → j < 2 ^ 31 → name_of i ≡ name_of j → i ≡ j)
      → s.next_conn_id + 1 < 2 ^ 31
      → IsValid s.thread_pool
      → AllNumbered s.next_conn_id s.connections
      → (io_loop : ℕ) × (pool : EventLoopThreadPool) × (s' : TcpServer) × (get_next_loop
            s.thread_pool
          ≡ some (io_loop, pool))
        × (new_connection conn s ≡ some (io_loop, s'))
        × (s'.thread_pool ≡ pool)
        × AllNumbered s'.next_conn_id s'.connections
        × (length s'.connections ≡ length s.connections + 1)
        × ((other : List ℕ)
            → find_conn other s'.connections ≡ (
                if bytes_eq (name_of s.next_conn_id) other
                then some conn
                else find_conn other s.connections))
  unfolding new_connection
  new_connection_lem conn s inj int v numbered =
      let room = lt→ltb (s.next_conn_id + 1) (2 ^ 31) int in
      let (io_loop, pool, e) = get_next_loop-some s.thread_pool v in
      let s' : TcpServer = record s {
        thread_pool = pool;
        next_conn_id = s.next_conn_id + 1;
        connections = put_conn (name_of s.next_conn_id) conn s.connections;
      } in
      (
        io_loop,
        pool,
        s',
        e,
        rw (e, room) refl,
        refl,
        rw (put_conn-new s.next_conn_id conn s.connections inj (omega arith) numbered)
            (AllNumbered-append s.next_conn_id conn s.connections numbered),
        rw (put_conn-new s.next_conn_id conn s.connections inj (omega arith) numbered)
            (length-append s.connections ((name_of s.next_conn_id, conn) ∷ [])),
        λ other. find_conn-put_conn (name_of s.next_conn_id) other conn s.connections,
      )

  erase_conn-AllNumbered :
      (n : ℕ) (name : List ℕ) (cs : List (List ℕ × ℕ))
      → AllNumbered n cs
      → AllNumbered n (erase_conn name cs)
  unfolding erase_conn
  erase_conn-AllNumbered n name [] h = tt
  erase_conn-AllNumbered n name ((m, c) ∷ cs) (k, h) = elim (Bool-cases (bytes_eq m name)) [
    | inl hit ↦ rw hit h
    | inr miss ↦ rw miss (k, erase_conn-AllNumbered n name cs h)
  ]

  find_conn-erase_conn :
      (name other : List ℕ) (cs : List (List ℕ × ℕ))
      → bytes_eq name other ≡ false
      → find_conn other (erase_conn name cs) ≡ find_conn other cs
  unfolding erase_conn
  find_conn-erase_conn name other [] e = refl
  find_conn-erase_conn name other ((m, c) ∷ cs) e = elim (Bool-cases (bytes_eq m name)) [
    | inl hit ↦ rw (hit, bytes_eq_sound m name hit, e) refl
    | inr miss ↦ rw miss (ground (arith, find_conn-erase_conn name other cs e))
  ]

  -- The removal of a connection from a server whose connections have smaller numbers than the next:
  -- the numbers stay below the next, and every connection of another name is still found.
  pub remove_connection_in_loop_lem :
      (name : List ℕ) (s : TcpServer)
      → AllNumbered s.next_conn_id s.connections
      → AllNumbered s.next_conn_id (remove_connection_in_loop name s).connections
        × ((other : List ℕ)
            → bytes_eq name other ≡ false
            → find_conn other (remove_connection_in_loop name s).connections
              ≡ find_conn other s.connections)
  unfolding remove_connection_in_loop
  remove_connection_in_loop_lem name s numbered = (
    erase_conn-AllNumbered s.next_conn_id name s.connections numbered,
    λ other e. find_conn-erase_conn name other s.connections e,
  )
