-- ===== src/EventLoopThread/Invariant.antt =====
-- What holds in every state of the two threads of net/event_loop_thread.cc.
use ryan_network_library.Prelude.{ℕ, ◌≡◌, refl, Bool, true, false, not, arith}
use ryan_network_library.EventLoopThread.{
  Place, unstarted, starting, initialised, published, looping, left, ended, Owner, outside, waiting,
  running, quitting, joining, gone, EventLoopThread, new_thread, start_loop, look, call_back,
  publish, enter_loop, leave_loop, finish, test_loop, call_quit, join, quit_by_other, Step, starts,
  looks, calls_back, publishes, enters, leaves, finishes, tests, calls_quit, joins, other_quits,
  Steps, here, next,
}

abbrev pub is_published : Place → Bool
is_published published = true
is_published looping = true
is_published left = true
is_published _ = false

-- How often a callback has run when the thread stands here.
abbrev pub calls_at : Bool → Place → ℕ
calls_at false place = 0
calls_at true unstarted = 0
calls_at true starting = 0
calls_at true _ = 1

-- Which places of the two threads and which flag come together where nobody else quits.
abbrev pub go_together : Owner → Place → Bool → Bool
go_together outside unstarted q = not q
go_together waiting starting q = not q
go_together waiting initialised q = not q
go_together waiting published q = not q
go_together waiting looping q = not q
go_together running published q = not q
go_together running looping q = not q
go_together quitting published q = not q
go_together quitting looping q = not q
go_together joining published q = q
go_together joining looping q = true
go_together joining left q = true
go_together joining ended q = true
go_together gone unstarted q = true
go_together gone ended q = true
go_together _ _ q = false

-- The owner waits only for a thread that it has started.
abbrev pub waits_rightly : Owner → Place → Bool
waits_rightly waiting unstarted = false
waits_rightly _ _ = true

-- Whether the owner has the loop's address, and what it waits for behind that.
abbrev pub has_address : Owner → Bool
has_address running = true
has_address quitting = true
has_address joining = true
has_address _ = false

-- Whether the loop's address was given out.
abbrev pub was_published : Place → Bool
was_published ended = true
was_published p = is_published p

pub record IsKept (others : Bool) (t : EventLoopThread) : Type 0 where
  pub set : t.loop_set ≡ is_published t.place
  pub calls : t.called ≡ calls_at t.has_callback t.place
  pub given : has_address t.owner ≡ true → was_published t.place ≡ true
  pub begun : waits_rightly t.owner t.place ≡ true
  pub together : others ≡ false → go_together t.owner t.place t.quit ≡ true

Step-IsKept :
    {others : Bool} {t u : EventLoopThread} → Step others t u → IsKept others t → IsKept others u
unfolding start_loop look call_back publish enter_loop leave_loop finish test_loop call_quit join
    quit_by_other
Step-IsKept (starts t out at) v = record {
  set = ground (arith, v.set);
  calls = ground (arith, v.calls);
  given = λ h. ground (arith, v.set, v.given);
  begun = ground (arith, v.begun);
  together = λ alone. ground (arith, v.set, v.together alone);
}
Step-IsKept (looks t at) v = record {
  set = ground (arith, v.set);
  calls = ground (arith, v.calls);
  given = λ h. ground (arith, v.set, v.given);
  begun = ground (arith, v.begun);
  together = λ alone. ground (arith, v.set, v.together alone);
}
Step-IsKept (calls_back t at) v = record {
  set = ground (arith, v.set);
  calls = ground (arith, v.calls);
  given = λ h. ground (arith, v.set, v.given);
  begun = ground (arith, v.begun);
  together = λ alone. ground (arith, v.set, v.together alone);
}
Step-IsKept (publishes t at) v = record {
  set = ground (arith, v.set);
  calls = ground (arith, v.calls);
  given = λ h. ground (arith, v.set, v.given);
  begun = ground (arith, v.begun);
  together = λ alone. ground (arith, v.set, v.together alone);
}
Step-IsKept (enters t at) v = record {
  set = ground (arith, v.set);
  calls = ground (arith, v.calls);
  given = λ h. ground (arith, v.set, v.given);
  begun = ground (arith, v.begun);
  together = λ alone. ground (arith, v.set, v.together alone);
}
Step-IsKept (leaves t at) v = record {
  set = ground (arith, v.set);
  calls = ground (arith, v.calls);
  given = λ h. ground (arith, v.set, v.given);
  begun = ground (arith, v.begun);
  together = λ alone. ground (arith, v.set, v.together alone);
}
Step-IsKept (finishes t at) v = record {
  set = ground (arith, v.set);
  calls = ground (arith, v.calls);
  given = λ h. ground (arith, v.set, v.given);
  begun = ground (arith, v.begun);
  together = λ alone. ground (arith, v.set, v.together alone);
}
Step-IsKept (tests t at) v = record {
  set = ground (arith, v.set);
  calls = ground (arith, v.calls);
  given = λ h. ground (arith, v.set, v.given);
  begun = ground (arith, v.begun);
  together = λ alone. ground (arith, v.set, v.together alone);
}
Step-IsKept (calls_quit t at) v = record {
  set = ground (arith, v.set);
  calls = ground (arith, v.calls);
  given = λ h. ground (arith, v.set, v.given);
  begun = ground (arith, v.begun);
  together = λ alone. ground (arith, v.set, v.together alone);
}
Step-IsKept (joins t at e) v = record {
  set = ground (arith, v.set);
  calls = ground (arith, v.calls);
  given = λ h. ground (arith, v.set, v.given);
  begun = ground (arith, v.begun);
  together = λ alone. ground (arith, v.set, v.together alone);
}
Step-IsKept (other_quits t some_one e) v = record {
  set = v.set;
  calls = v.calls;
  given = v.given;
  begun = v.begun;
  together = λ alone. absurd (ground arith);
}

pub Steps-IsKept :
    {others : Bool} {t u : EventLoopThread} → Steps others t u → IsKept others t → IsKept others u
Steps-IsKept here v = v
Steps-IsKept (next ss st) v = Step-IsKept st (Steps-IsKept ss v)

pub new_thread-IsKept : (others has_callback : Bool) → IsKept others (new_thread has_callback)
unfolding new_thread
new_thread-IsKept others true = record {
  set = refl;
  calls = refl;
  given = λ h. absurd (ground arith);
  begun = refl;
  together = λ e. refl;
}
new_thread-IsKept others false = record {
  set = refl;
  calls = refl;
  given = λ h. absurd (ground arith);
  begun = refl;
  together = λ e. refl;
}
