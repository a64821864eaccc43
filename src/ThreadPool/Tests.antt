-- ===== src/ThreadPool/Tests.antt =====
-- The theorems on the thread pool at a concrete pool.
use ryan_network_library.Prelude.{
  ℕ, ◌+◌, ◌≤◌, ◌≡◌, refl, ◌≢◌, ◌↔◌, true, false, some, List, [], ◌∷◌, arith,
}
use ryan_network_library.ThreadPool.Workers.{Workers, testing, taking, working, works, stop_all}
use ryan_network_library.ThreadPool.Stopping.{total, steps_left, works_lem}
use ryan_network_library.ThreadPool.{
  ThreadPool, Attempt, submit, fetch, halt, run, run_task, take_task, is_full, faulted, put_off,
  refused, waits, all_accepted, all_handed, step, stop, IsBounded, run-IsBounded, attempts_lem,
}

-- One place is left.
abbrev pool : ThreadPool
pool = record { num_threads = 2; queue = 5 ∷ []; max_queue_size = 2; running = true }

abbrev attempts : List Attempt
attempts = submit 6 ∷ submit 7 ∷ fetch ∷ submit 8 ∷ halt ∷ submit 9 ∷ fetch ∷ []

run-IsBounded_example :
    (5 ∷ 6 ∷ (run attempts pool).queue ≡ 5 ∷ 6 ∷ 8 ∷ []) × IsBounded (run attempts pool)
unfolding all_accepted all_handed run_task take_task step stop is_full
run-IsBounded_example = run-IsBounded attempts pool (λ h. omega arith)

attempts_lem_example :
    ((run_task 6 pool).0 ≢ faulted)
    × (((run_task 6 pool).0 ≡ put_off) ↔ ((true ≡ true) × (is_full pool ≡ true)))
    × (((run_task 6 pool).0 ≡ refused) ↔ (true ≡ false))
    × (((take_task pool).0 ≡ waits) ↔ ((true ≡ true) × (pool.queue ≡ [])))
attempts_lem_example = attempts_lem 6 pool (omega arith)

-- Two threads, one in a task and one in `Take`, and two more tasks in the queue, when the pool is
-- stopped.
abbrev stopped : Workers
stopped = stop_all (record {
  pool = record { num_threads = 2; queue = 5 ∷ 6 ∷ []; max_queue_size = 0; running = true };
  threads = working 4 ∷ taking ∷ [];
  ran = [];
})

abbrev after_some : Workers
after_some = record {
  pool = record { num_threads = 2; queue = 6 ∷ []; max_queue_size = 0; running = false };
  threads = testing ∷ working 5 ∷ [];
  ran = 4 ∷ [];
}

stopped-works : works (0 ∷ 1 ∷ []) stopped ≡ some after_some
unfolding works stop_all take_task stop
stopped-works = refl

works_lem_example :
    (2 + 3 ≤ 5)
    × (2 ≤ 1 + 1)
    × ((js : List ℕ) × (u : Workers) × (works js after_some ≡ some u)
        × (total steps_left u.threads ≡ 0))
unfolding stop_all stop
works_lem_example = works_lem (0 ∷ 1 ∷ []) stopped after_some refl stopped-works
