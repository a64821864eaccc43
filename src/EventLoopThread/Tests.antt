-- ===== src/EventLoopThread/Tests.antt =====
-- The theorems on the thread of a loop at a concrete history.
use ryan_network_library.Prelude.{◌≡◌, ◌≢◌, refl, inr, true, false, if◌then◌else◌}
use ryan_network_library.EventLoopThread.{
  published, ended, waiting, joining, gone, running, crashed, EventLoopThread, new_thread,
  start_loop, call_back, publish, look, test_loop, call_quit, starts, calls_back, publishes, looks,
  tests, calls_quit, Steps, here, next,
}
use ryan_network_library.EventLoopThread.Invariant.{has_address, was_published}
use ryan_network_library.EventLoopThread.Ends.{CanReach, start_loop_lem, is_heard, destructor_lem}

-- The destructor right behind `StartLoop`, before the new thread is in `Loop()`.
abbrev hurried : EventLoopThread
hurried = record {
  loop_set = true;
  exiting = true;
  has_callback = true;
  called = 1;
  quit = true;
  place = published;
  owner = joining;
}

hurried-Steps : Steps false (new_thread true) hurried
unfolding new_thread start_loop call_back publish look test_loop call_quit
hurried-Steps =
    let t = start_loop (new_thread true) in
    let t' = look (publish (call_back t)) in
    next
      (next
        (next
          (next (next (next here (starts (new_thread true) refl refl)) (calls_back t refl))
            (publishes (call_back t) refl))
          (looks (publish (call_back t)) refl))
        (tests t' (inr refl)))
      (calls_quit (test_loop t') refl)

start_loop_lem_example :
    (hurried.owner ≡ waiting → hurried.place ≢ ended → CanReach false running hurried)
    × (hurried.owner ≡ waiting
        → hurried.place ≡ ended
        → (u : EventLoopThread) → Steps false hurried u
        → u.owner ≡ waiting)
    × (has_address hurried.owner ≡ true
        → (was_published hurried.place ≡ true)
          × (hurried.called ≡ (if hurried.has_callback then 1 else 0)))
start_loop_lem_example = start_loop_lem false true hurried hurried-Steps

destructor_lem_example :
    (hurried.owner ≢ crashed)
    × (hurried.owner ≡ joining
        → is_heard hurried.place hurried.quit ≡ true
        → CanReach false gone hurried)
    × (hurried.owner ≡ joining
        → is_heard hurried.place hurried.quit ≡ false
        → (u : EventLoopThread) → Steps false hurried u
        → u.owner ≡ joining)
destructor_lem_example = destructor_lem true hurried hurried-Steps
