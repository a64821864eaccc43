-- ===== src/EventLoopThreadPool/Tests.antt =====
-- The theorem on the thread pool's loops at a concrete pool.
use ryan_network_library.Prelude.{ℕ, ◌+◌, ◌<◌, ◌≡◌, refl, inr, true, some, [], ◌∷◌, arith}
use ryan_network_library.EventLoopThreadPool.{
  EventLoopThreadPool, new_pool, set_thread_num, start, start_threads, get_next_loop, take_loops,
  take_loops_lem,
}

abbrev pool : EventLoopThreadPool
pool = record {
  base_loop = 9;
  started = true;
  num_threads = 3;
  next = 2;
  loops = 20 ∷ 21 ∷ 22 ∷ [];
}

pool_started :
    start true (λ i. 20 + i) (set_thread_num 3 (new_pool 9)) ≡ ([], record pool { next = 0 })
unfolding start set_thread_num new_pool start_threads
pool_started = refl

take_loops_lem_example :
    (◌≡◌ {A = ℕ} 3 0 → get_next_loop pool ≡ some (9, pool))
    × (0 < 3 → take_loops 3 pool ≡ some (22 ∷ 20 ∷ 21 ∷ [], pool))
take_loops_lem_example = take_loops_lem pool (inr (omega arith))
