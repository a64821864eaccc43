-- ===== src/TimerQueue.antt =====
-- timer/timer_queue.cc, timer/timer.cc and the order of base/timestamp.h: the timers in the order of the
-- set, by expiration and then by address, what expires, and how the descriptor is set. A time is a
-- natural number of microseconds; the clock's readings and the times that a repeating timer is set to
-- (an interval of type double) are arguments.
pub mod Order
pub mod Adding
pub mod Expiry
pub mod Memory
mod Tests
use ryan_network_library.Prelude.{
  ℕ, ◌+◌, ◌-◌, ◌^◌, Bool, true, false, ◌&&◌, ◌||◌, Option, none, some, List, [], ◌∷◌, ◌++◌, ltb,
  ◌==◌, if◌then◌else◌,
}

-- An entry of `timers_`: `expiration_` and the timer's address.
pub record Entry : Type 0 where
  pub when : ℕ
  pub timer : ℕ

-- The order of pairs: by time, then by address.
abbrev pub before : Entry → Entry → Bool
before a b = ltb a.when b.when || ((a.when == b.when) && ltb a.timer b.timer)

pub record TimerQueue : Type 0 where
  pub timers : List Entry
  pub calling_expired_timers : Bool
  -- The last call of `timerfd_settime`: the clock's reading, and the microseconds from then.
  pub timerfd : Option (ℕ × ℕ)
  -- The callbacks that ran and the timers that were deleted, in order.
  pub ran : List ℕ
  pub freed : List ℕ

-- `std::set::insert`.
unfoldable pub insert_entry : Entry → List Entry → List Entry
insert_entry e [] = e ∷ []
insert_entry e (x ∷ xs) =
    let rest = insert_entry e xs in
    if before e x then e ∷ x ∷ xs else (if before x e then x ∷ rest else x ∷ xs)

-- Whether the entry is earlier than all that are there.
abbrev is_earliest : Entry → List Entry → Bool
is_earliest e [] = true
is_earliest e (x ∷ xs) = ltb e.when x.when

-- `Insert`.
unfoldable pub insert : Entry → TimerQueue → Bool × TimerQueue
unfolding insert_entry
insert e q = (is_earliest e q.timers, record q { timers = insert_entry e q.timers })

-- `ResetTimerfd`: at least 100 microseconds from `now`.
unfoldable pub reset_timerfd : ℕ → ℕ → TimerQueue → TimerQueue
reset_timerfd now expiration q = record q {
  timerfd = some (now, if ltb expiration (now + 100) then 100 else expiration - now);
}

-- `AddTimerInLoop`.
unfoldable pub add_timer_in_loop : ℕ → Entry → TimerQueue → TimerQueue
unfolding insert reset_timerfd
add_timer_in_loop now e q =
    let (earliest_changed, q') = insert e q in
    if earliest_changed then reset_timerfd now e.when q' else q'

-- `std::set::lower_bound` cuts the set; the sentry's address is UINTPTR_MAX.
abbrev pub sentry : ℕ → Entry
sentry now = record { when = now; timer = 2 ^ 64 - 1 }

unfoldable pub split_before : Entry → List Entry → List Entry × List Entry
split_before s [] = ([], [])
split_before s (x ∷ xs) =
    let rest = split_before s xs in if before x s then (x ∷ rest.0, rest.1) else ([], x ∷ xs)

-- `GetExpired`.
unfoldable pub get_expired : ℕ → TimerQueue → List Entry × TimerQueue
unfolding split_before
get_expired now q =
    let cut = split_before (sentry now) q.timers in (cut.0, record q { timers = cut.1 })

-- The timers that a callback adds: `AddTimer` in the loop's own thread runs `AddTimerInLoop` at once.
-- Each is with the clock's reading.
unfoldable pub add_all : List (ℕ × Entry) → TimerQueue → TimerQueue
unfolding add_timer_in_loop
add_all [] q = q
add_all ((now, e) ∷ es) q = add_all es (add_timer_in_loop now e q)

-- The callbacks of the expired timers; `adds` tells which timers a timer's callback adds.
unfoldable pub run_all : (ℕ → List (ℕ × Entry)) → List Entry → TimerQueue → TimerQueue
unfolding add_all
run_all adds [] q = q
run_all adds (e ∷ es) q =
    run_all adds es (add_all (adds e.timer) (record q { ran = q.ran ++ (e.timer ∷ []) }))

-- The first entry's time sets the descriptor, if there is one.
unfoldable pub reset_to_first : ℕ → TimerQueue → TimerQueue
unfolding reset_timerfd
reset_to_first now q = elim q.timers [ [] ↦ q | e ∷ es ↦ reset_timerfd now e.when q ]

-- `Reset`: `restart` gives the next time of a timer that repeats, none for one that does not; `now` is
-- the clock's reading in the round of a timer.
unfoldable pub restart_or_free : Option ℕ → ℕ → TimerQueue → TimerQueue
unfolding insert
restart_or_free (some when) timer q = (insert (record { when = when; timer = timer }) q).1
restart_or_free none timer q = record q { freed = q.freed ++ (timer ∷ []) }

unfoldable pub reset : (ℕ → Option ℕ) → (ℕ → ℕ) → List Entry → TimerQueue → TimerQueue
unfolding reset_to_first restart_or_free
reset restart now [] q = q
reset restart now (e ∷ es) q =
    reset restart now es
      (reset_to_first (now e.timer) (restart_or_free (restart e.timer) e.timer q))

-- `HandleRead` at the time `now`; `later` are the readings in `Reset`.
unfoldable pub handle_read :
    (ℕ → List (ℕ × Entry)) → (ℕ → Option ℕ) → ℕ → (ℕ → ℕ) → TimerQueue → TimerQueue
unfolding get_expired run_all reset
handle_read adds restart now later q =
    let (expired, q') = get_expired now q in
    let q'' = run_all adds expired (record q' { calling_expired_timers = true }) in
    reset restart later expired (record q'' { calling_expired_timers = false })

-- The timers of entries.
abbrev pub timers_of : List Entry → List ℕ
timers_of [] = []
timers_of (e ∷ es) = e.timer ∷ timers_of es

-- The destructor deletes every timer of the set.
unfoldable pub end_queue : TimerQueue → TimerQueue
end_queue q = record q { timers = []; freed = q.freed ++ timers_of q.timers }
