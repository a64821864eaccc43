-- ===== src/MysqlConnPool.antt =====
-- mysql/mysql_conn_pool.h and mysql_conn_pool.cc: the connections that wait, and the counter. What a
-- thread does under the lock is one step; `none` is a thread that has to wait. A connection is a number,
-- with the time from which it is idle; opening one is the client library's.
pub mod Counts
mod Tests
use ryan_network_library.Prelude.{
  ℕ, zero, suc, ◌+◌, ◌-◌, ◌≤◌, ◌<◌, ◌≡◌, refl, sym, ap, ◌∙◌, ◌⊎◌, inl, inr, Bool, ◌&&◌, Option,
  none, some, List, [], ◌∷◌, ◌++◌, arith, length, length-append, ltb, leb, ◌==◌, if◌then◌else◌,
  ltb→lt, Bool-cases,
}

-- A connection and the start of its idle time.
pub record MysqlConn : Type 0 where
  pub conn : ℕ
  pub alive_since : ℕ

-- `created`, `lent` and `closed` are not fields of the class: how many connections were opened, are with
-- a client, and were closed.
pub record MysqlConnPool : Type 0 where
  pub connection_queue : List MysqlConn
  pub current_size : ℕ
  pub min_size : ℕ
  pub max_size : ℕ
  pub max_idle_time : ℕ
  pub created : ℕ
  pub lent : ℕ
  pub closed : ℕ

-- `AddConnection` at the time `now`.
unfoldable pub add_connection : ℕ → MysqlConnPool → MysqlConnPool
add_connection now p = record p {
  connection_queue = p.connection_queue ++ (record { conn = p.created; alive_since = now } ∷ []);
  current_size = p.current_size + 1;
  created = p.created + 1;
}

abbrev pub count_up : MysqlConnPool → MysqlConnPool
count_up p = record p { current_size = p.current_size + 1 }

-- The loop of the constructor.
unfoldable pub open_all : ℕ → ℕ → MysqlConnPool → MysqlConnPool
unfolding add_connection
open_all now zero p = p
open_all now (suc n) p = open_all now n (count_up (add_connection now p))

abbrev pub empty_pool : ℕ → ℕ → ℕ → MysqlConnPool
empty_pool min_size max_size max_idle_time = record {
  connection_queue = [];
  current_size = 0;
  min_size = min_size;
  max_size = max_size;
  max_idle_time = max_idle_time;
  created = 0;
  lent = 0;
  closed = 0;
}

-- The constructor.
unfoldable pub new_pool : ℕ → ℕ → ℕ → ℕ → MysqlConnPool
unfolding open_all
new_pool now min_size max_size max_idle_time =
    open_all now min_size (empty_pool min_size max_size max_idle_time)

-- A round of `ProduceConnection`.
unfoldable pub produce_connection : ℕ → MysqlConnPool → Option MysqlConnPool
unfolding add_connection
produce_connection now p =
    if length p.connection_queue == 0
    then some (if ltb p.current_size p.max_size then count_up (add_connection now p) else p)
    else none

-- The inner loop of `RecycleConnection` on the connections that wait.
unfoldable pub recycle : ℕ → List MysqlConn → MysqlConnPool → MysqlConnPool
recycle now [] p = record p { connection_queue = [] }
recycle now (c ∷ cs) p =
    let rest =
      recycle now cs (record p { current_size = p.current_size - 1; closed = p.closed + 1 }) in
    if ltb p.min_size (length (c ∷ cs)) && leb p.max_idle_time (now - c.alive_since)
    then rest
    else record p { connection_queue = c ∷ cs }

unfoldable pub recycle_connection : ℕ → MysqlConnPool → MysqlConnPool
unfolding recycle
recycle_connection now p = recycle now p.connection_queue p

-- `GetConnection`.
unfoldable pub get_connection : MysqlConnPool → Option (MysqlConn × MysqlConnPool)
get_connection p = elim p.connection_queue [
  | [] ↦ none
  | c ∷ cs ↦ some (c, record p { connection_queue = cs; lent = p.lent + 1 })
]

-- The deleter of the shared pointer that `GetConnection` gives.
unfoldable pub give_back : ℕ → MysqlConn → MysqlConnPool → MysqlConnPool
give_back now c p = record p {
  connection_queue = p.connection_queue ++ (record c { alive_since = now } ∷ []);
  lent = p.lent - 1;
}

-- The loop of the destructor.
unfoldable pub close_all : List MysqlConn → MysqlConnPool → MysqlConnPool
close_all [] p = record p { connection_queue = [] }
close_all (c ∷ cs) p =
    close_all cs (record p { current_size = p.current_size - 1; closed = p.closed + 1 })

-- The destructor.
unfoldable pub end_pool : MysqlConnPool → MysqlConnPool
unfolding close_all
end_pool p = close_all p.connection_queue p

-- The steps of the threads, in any order; a connection that is given back is one that was lent.
pub data Step : MysqlConnPool → MysqlConnPool → Type 0 where
  produces : (now : ℕ) (p p' : MysqlConnPool) → produce_connection now p ≡ some p' → Step p p'
  recycles : (now : ℕ) (p : MysqlConnPool) → Step p (recycle_connection now p)
  gets : (c : MysqlConn) (p p' : MysqlConnPool) → get_connection p ≡ some (c, p') → Step p p'
  gives : (now : ℕ) (c : MysqlConn) (p : MysqlConnPool) → 0 < p.lent → Step p (give_back now c p)

pub data Steps (p : MysqlConnPool) : MysqlConnPool → Type 0 where
  here : Steps p p
  next : {q r : MysqlConnPool} → Steps p q → Step q r → Steps p r
