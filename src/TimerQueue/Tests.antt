-- ===== src/TimerQueue/Tests.antt =====
-- The theorems on timers at a concrete queue.
use ryan_network_library.Prelude.{
  ℕ, ◌≡◌, ◌⊎◌, refl, true, false, ◌||◌, Option, none, some, [], ◌∷◌, ◌++◌, arith, ◌==◌,
  if◌then◌else◌,
}
use ryan_network_library.Prelude.{List, ◌+◌, ◌≤◌, times}
use ryan_network_library.TimerQueue.{timers_of, end_queue}
use ryan_network_library.TimerQueue.Adding.{added}
use ryan_network_library.TimerQueue.Memory.{held, handle_read-held}
use ryan_network_library.TimerQueue.{
  Entry, TimerQueue, add_timer_in_loop, get_expired, handle_read, split_before,
}
use ryan_network_library.TimerQueue.Order.{
  AllAfter, IsSorted, has, same_entry, AllExpired, AllPending,
}
use ryan_network_library.TimerQueue.Adding.{IsArmed, add_timer_in_loop_lem}
use ryan_network_library.TimerQueue.Expiry.{get_expired_lem, handle_read_lem}

abbrev at : ℕ → ℕ → Entry
at when timer = record { when = when; timer = timer }

abbrev queue : TimerQueue
queue = record {
  timers = at 500 1 ∷ at 500 2 ∷ at 900 3 ∷ [];
  calling_expired_timers = false;
  timerfd = some (100, 400);
  ran = [];
  freed = [];
}

queue-IsSorted : IsSorted queue.timers
unfolding AllAfter IsSorted
queue-IsSorted = ((refl, (refl, tt)), ((refl, tt), (tt, tt)))

-- Timer 2 repeats.
abbrev restart : ℕ → Option ℕ
restart timer = if timer == 2 then some 1500 else none

get_expired_lem_example :
    ((get_expired 600 queue).0 ++ (get_expired 600 queue).1.timers ≡ queue.timers)
    × AllExpired 600 (get_expired 600 queue).0
    × AllPending 600 (get_expired 600 queue).1.timers
    × IsSorted (get_expired 600 queue).1.timers
get_expired_lem_example =
    get_expired_lem 600 queue queue-IsSorted (omega arith, (omega arith, (omega arith, tt)))

add_timer_in_loop_lem_example :
    IsSorted (add_timer_in_loop 100 (at 300 4) queue).timers
    × IsArmed 100 100 (add_timer_in_loop 100 (at 300 4) queue)
    × (AllPending 300 queue.timers → IsArmed 100 100 (add_timer_in_loop 100 (at 300 4) queue))
    × ((y : Entry)
        → has y queue.timers ≡ true
        → y.when ≤ 300
        → (add_timer_in_loop 100 (at 300 4) queue).timerfd ≡ some (100, 400))
    × ((y : Entry)
        → has y (add_timer_in_loop 100 (at 300 4) queue).timers
          ≡ same_entry y (at 300 4) || has y queue.timers)
add_timer_in_loop_lem_example =
    add_timer_in_loop_lem 100 100 100 (at 300 4) queue queue-IsSorted (omega arith) (omega arith)
      (100, 400, refl, omega arith, omega arith, refl)

-- The callback of timer 1 adds a timer.
abbrev adds : ℕ → List (ℕ × Entry)
adds timer = if timer == 1 then (600, at 700 5) ∷ [] else []

handle_read_lem_example :
    let q' = handle_read adds restart 600 (λ t. 620) queue in
    (q'.ran ≡ 1 ∷ 2 ∷ [])
    × (q'.freed ≡ 1 ∷ [])
    × IsSorted q'.timers
    × ((y : Entry)
        → has y q'.timers
          ≡ has y (at 1500 2 ∷ []) || (has y (at 700 5 ∷ []) || has y (at 900 3 ∷ [])))
    × ((((at 500 1 ∷ at 500 2 ∷ []) ≡ [])
          × (q'.timers ≡ queue.timers)
          × (q'.timerfd ≡ queue.timerfd))
        ⊎ IsArmed 600 650 q')
    × (q'.calling_expired_timers ≡ false)
handle_read_lem_example =
    handle_read_lem adds restart 600 650 (λ t. 620) queue queue-IsSorted
      (omega arith, (omega arith, (omega arith, tt))) (λ t. (omega arith, omega arith))

-- No two timers have one address.
apart :
    (t : ℕ)
    → times t (timers_of (added adds (get_expired 600 queue).0)) + times t (timers_of queue.timers)
      ≤ 1
unfolding get_expired split_before
apart t = ground arith

handle_read-held_example :
    (held 1 (handle_read adds restart 600 (λ i. 600) queue)
      ≡ times 1 (timers_of (added adds (get_expired 600 queue).0)) + held 1 queue)
    × (times 1 (end_queue (handle_read adds restart 600 (λ i. 600) queue)).freed
        ≡ held 1 (handle_read adds restart 600 (λ i. 600) queue))
handle_read-held_example =
    handle_read-held adds restart 600 (λ i. 600) queue queue-IsSorted
      (omega arith, (omega arith, (omega arith, tt))) apart 1
