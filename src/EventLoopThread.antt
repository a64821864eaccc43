-- ===== src/EventLoopThread.antt =====
-- net/event_loop_thread.h and event_loop_thread.cc, with `quit_` of net/event_loop.cc: the thread that
-- owns a loop, and the thread that starts it, waits for the loop's address, and destroys it again.
-- What one of them does under the lock, or between two accesses of shared data, is one step. A wait on
-- the condition leaves the state as it is; it is tried again after the notification.
pub mod Invariant
pub mod Ends
mod Tests
use ryan_network_library.Prelude.{ℕ, ◌+◌, ◌≡◌, ◌⊎◌, Bool, true, false, if◌then◌else◌}

-- Where the new thread stands: not started, at the user's callback, behind it, behind the
-- notification, in `Loop()`, behind it, at its end.
pub data Place : Type 0 where
  unstarted starting initialised published looping left ended : Place

-- Where the owner stands: outside, in the wait of `StartLoop`, with the loop's address, in the destructor
-- behind the test of `loop_`, in `Join`, behind the destructor, or behind a call through a null pointer.
pub data Owner : Type 0 where
  outside waiting running quitting joining gone crashed : Owner

-- Whether the loop is there and its address may be known.
abbrev pub has_loop : Place → Bool
has_loop unstarted = false
has_loop starting = false
has_loop ended = false
has_loop _ = true

-- `loop_set` is `loop_ != nullptr`, `called` how often the callback ran.
pub record EventLoopThread : Type 0 where
  pub loop_set : Bool
  pub exiting : Bool
  pub has_callback : Bool
  pub called : ℕ
  pub quit : Bool
  pub place : Place
  pub owner : Owner

unfoldable pub new_thread : Bool → EventLoopThread
new_thread has_callback = record {
  loop_set = false;
  exiting = false;
  has_callback = has_callback;
  called = 0;
  quit = false;
  place = unstarted;
  owner = outside;
}

-- `StartLoop` up to the wait.
unfoldable pub start_loop : EventLoopThread → EventLoopThread
start_loop t = record t { place = starting; owner = waiting }

-- The test of the wait, and the address where it passes.
unfoldable pub look : EventLoopThread → EventLoopThread
look t = if t.loop_set then record t { owner = running } else t

-- `ThreadFunc`: the callback.
unfoldable pub call_back : EventLoopThread → EventLoopThread
call_back t = record t {
  place = initialised;
  called = if t.has_callback then t.called + 1 else t.called;
}

-- The address, and the notification.
unfoldable pub publish : EventLoopThread → EventLoopThread
publish t = record t { place = published; loop_set = true }

-- `Loop()` begins: it clears `quit_`.
unfoldable pub enter_loop : EventLoopThread → EventLoopThread
enter_loop t = record t { place = looping; quit = false }

-- `while (!quit_)`.
unfoldable pub leave_loop : EventLoopThread → EventLoopThread
leave_loop t = if t.quit then record t { place = left } else t

-- The end of `ThreadFunc`.
unfoldable pub finish : EventLoopThread → EventLoopThread
finish t = record t { place = ended; loop_set = false }

-- The destructor: the test of `loop_`, without the lock.
unfoldable pub test_loop : EventLoopThread → EventLoopThread
test_loop t = record t { exiting = true; owner = if t.loop_set then quitting else gone }

-- `loop_->Quit()`.
unfoldable pub call_quit : EventLoopThread → EventLoopThread
call_quit t =
    if t.loop_set then record t { quit = true; owner = joining } else record t { owner = crashed }

-- `Join` returns.
unfoldable pub join : EventLoopThread → EventLoopThread
join t = record t { owner = gone }

-- Someone else asks the loop to quit.
unfoldable pub quit_by_other : EventLoopThread → EventLoopThread
quit_by_other t = record t { quit = true }

-- The steps of both threads, in any order; `others` tells whether someone else, who got the
-- loop's address, may ask the loop to quit.
pub data Step (others : Bool) : EventLoopThread → EventLoopThread → Type 0 where
  starts :
      (t : EventLoopThread) → t.owner ≡ outside → t.place ≡ unstarted → Step others t (start_loop t)
  looks : (t : EventLoopThread) → t.owner ≡ waiting → Step others t (look t)
  calls_back : (t : EventLoopThread) → t.place ≡ starting → Step others t (call_back t)
  publishes : (t : EventLoopThread) → t.place ≡ initialised → Step others t (publish t)
  enters : (t : EventLoopThread) → t.place ≡ published → Step others t (enter_loop t)
  leaves : (t : EventLoopThread) → t.place ≡ looping → Step others t (leave_loop t)
  finishes : (t : EventLoopThread) → t.place ≡ left → Step others t (finish t)
  tests :
      (t : EventLoopThread)
      → (t.owner ≡ outside) ⊎ (t.owner ≡ running)
      → Step others t (test_loop t)
  calls_quit : (t : EventLoopThread) → t.owner ≡ quitting → Step others t (call_quit t)
  joins : (t : EventLoopThread) → t.owner ≡ joining → t.place ≡ ended → Step others t (join t)
  other_quits :
      (t : EventLoopThread)
      → others ≡ true
      → has_loop t.place ≡ true
      → Step others t (quit_by_other t)

pub data Steps (others : Bool) (t : EventLoopThread) : EventLoopThread → Type 0 where
  here : Steps others t t
  next : {u v : EventLoopThread} → Steps others t u → Step others u v → Steps others t v
