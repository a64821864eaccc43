-- ===== src/MysqlConnPool/Tests.antt =====
-- The theorems on the connection pool at a concrete pool.
use ryan_network_library.Prelude.{◌≡◌, refl, [], ◌∷◌, arith}
use ryan_network_library.MysqlConnPool.{
  MysqlConnPool, new_pool, open_all, add_connection, Steps, here, next, gets, get_connection,
}
use ryan_network_library.MysqlConnPool.Counts.{IsCounted, Steps-created}

-- Two connections are opened, and the counter stands at four.
abbrev pool : MysqlConnPool
pool = record {
  connection_queue =
      record { conn = 0; alive_since = 5 } ∷ record { conn = 1; alive_since = 5 } ∷ [];
  current_size = 4;
  min_size = 2;
  max_size = 2;
  max_idle_time = 60;
  created = 2;
  lent = 0;
  closed = 0;
}

pool_new : new_pool 5 2 2 60 ≡ pool
unfolding new_pool open_all add_connection
pool_new = refl

pool-IsCounted : IsCounted pool
pool-IsCounted = record { kept = refl; twice = refl }

abbrev later : MysqlConnPool
later = record pool { connection_queue = record { conn = 1; alive_since = 5 } ∷ []; lent = 1 }

pool_gets : Steps pool later
unfolding get_connection
pool_gets = next here (gets (record { conn = 0; alive_since = 5 }) pool later refl)

Steps-created_example : (later.created ≡ 2) × (later.max_size ≡ 2)
Steps-created_example = Steps-created pool_gets pool-IsCounted (omega arith)
