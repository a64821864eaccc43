-- ===== src/ThreadPool/Workers.antt =====
-- RunInThread and Stop of base/thread_pool.cc: the threads that take tasks and run them. A task that
-- throws ends the program there and is not modelled.
use ryan_network_library.Prelude.{
  ℕ, Option, none, some, List, [], ◌∷◌, ◌++◌, get_elem?, set, if◌then◌else◌, ◌>>=◌,
}
use ryan_network_library.ThreadPool.{ThreadPool, Taken, waits, no_task, task, take_task, stop}

-- Where a thread stands in `RunInThread`: at the test of `running_`, in `Take`, in a task, behind the
-- loop.
pub data Place : Type 0 where
  testing taking finished : Place
  working : ℕ → Place

-- `ran` are the tasks that the threads have run, in order.
pub record Workers : Type 0 where
  pub pool : ThreadPool
  pub threads : List Place
  pub ran : List ℕ

abbrev pub put : ℕ → Place → Workers → Workers
put i place s = record s { threads = set s.threads i place }

-- What thread `i` does behind the part of `Take` under the lock; `none` is a thread that waits.
abbrev pub after_take : Taken × ThreadPool → ℕ → Workers → Option Workers
after_take (waits, pool) i s = none
after_take (no_task, pool) i s = some (put i testing s)
after_take (task t notifies, pool) i s = some (put i (working t) (record s { pool = pool }))

unfoldable pub take_step : ℕ → Workers → Option Workers
take_step i s = after_take (take_task s.pool) i s

-- The next step of thread `i` from its place; `none` is a thread that waits or has ended.
unfoldable pub step_from : Place → ℕ → Workers → Option Workers
unfolding take_step
step_from testing i s = some (put i (if s.pool.running then taking else finished) s)
step_from taking i s = take_step i s
step_from (working t) i s = some (put i testing (record s { ran = s.ran ++ (t ∷ []) }))
step_from finished i s = none

unfoldable pub work : ℕ → Workers → Option Workers
unfolding step_from
work i s = do place ← get_elem? s.threads i; step_from place i s

-- Steps of the threads, in any order.
unfoldable pub works : List ℕ → Workers → Option Workers
unfolding work
works [] s = some s
works (i ∷ is) s = do s' ← work i s; works is s'

-- `Stop`, the part under the lock; behind it, it joins every thread.
unfoldable pub stop_all : Workers → Workers
unfolding stop
stop_all s = record s { pool = stop s.pool }
