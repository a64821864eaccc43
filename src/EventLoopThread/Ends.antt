-- ===== src/EventLoopThread/Ends.antt =====
-- Whether StartLoop and the destructor of net/event_loop_thread.cc come to an end.
use ryan_network_library.Prelude.{◌≡◌, ◌≢◌, refl, Bool, true, false, arith, if◌then◌else◌}
use ryan_network_library.EventLoopThread.{
  Place, unstarted, starting, initialised, published, looping, left, ended, Owner, waiting, running,
  joining, gone, crashed, EventLoopThread, new_thread, look, call_back, publish, enter_loop,
  leave_loop, finish, join, quit_by_other, Step, starts, looks, calls_back, publishes, enters,
  leaves, finishes, tests, calls_quit, joins, other_quits, Steps, here, next,
}
use ryan_network_library.EventLoopThread.Invariant.{
  has_address, was_published, IsKept, Steps-IsKept, new_thread-IsKept,
}

Steps-append :
    {others : Bool} {t u v : EventLoopThread}
    → Steps others t u
    → Steps others u v
    → Steps others t v
Steps-append ss here = ss
Steps-append ss (next rs st) = next (Steps-append ss rs) st

-- A schedule that brings the owner there.
abbrev pub CanReach : Bool → Owner → EventLoopThread → Type 0
CanReach others o t = (u : EventLoopThread) × Steps others t u × (u.owner ≡ o)

first :
    {others : Bool} {o : Owner} {t u : EventLoopThread}
    → Step others t u
    → CanReach others o u
    → CanReach others o t
first st (v, ss, e) = (v, Steps-append (next here st) ss, e)

look-CanReach :
    (others : Bool) (t : EventLoopThread)
    → t.owner ≡ waiting
    → t.loop_set ≡ true
    → CanReach others running t
unfolding look
look-CanReach others t at e = (look t, next here (looks t at), rw e refl)

-- The wait can end as long as the thread has not.
waiting-CanReach :
    (others : Bool) (t : EventLoopThread) (p : Place)
    → t.place ≡ p
    → t.owner ≡ waiting
    → p ≢ ended
    → IsKept others t
    → CanReach others running t
unfolding call_back publish
waiting-CanReach others t unstarted e at n v = absurd (ground (arith, v.begun))
waiting-CanReach others t starting e at n v =
    first (calls_back t e)
      (first (publishes (call_back t) refl) (look-CanReach others (publish (call_back t)) at refl))
waiting-CanReach others t initialised e at n v =
    first (publishes t e) (look-CanReach others (publish t) at refl)
waiting-CanReach others t published e at n v = look-CanReach others t at (ground (arith, v.set))
waiting-CanReach others t looping e at n v = look-CanReach others t at (ground (arith, v.set))
waiting-CanReach others t left e at n v = look-CanReach others t at (ground (arith, v.set))
waiting-CanReach others t ended e at n v = absurd (n refl)

-- Nobody publishes a loop again.
abbrev Missed : EventLoopThread → Type 0
Missed t = (t.owner ≡ waiting) × (t.place ≡ ended) × (t.loop_set ≡ false)

Step-Missed : {others : Bool} {t u : EventLoopThread} → Step others t u → Missed t → Missed u
unfolding look quit_by_other
Step-Missed (looks t at) (w, e, n) = rw n (w, e, refl)
Step-Missed (starts t out at) m = absurd (ground arith)
Step-Missed (calls_back t at) m = absurd (ground arith)
Step-Missed (publishes t at) m = absurd (ground arith)
Step-Missed (enters t at) m = absurd (ground arith)
Step-Missed (leaves t at) m = absurd (ground arith)
Step-Missed (finishes t at) m = absurd (ground arith)
Step-Missed (tests t at) m = absurd (ground arith)
Step-Missed (calls_quit t at) m = absurd (ground arith)
Step-Missed (joins t at e) m = absurd (ground arith)
Step-Missed (other_quits t some_one e) m = absurd (ground arith)

Steps-Missed : {others : Bool} {t u : EventLoopThread} → Steps others t u → Missed t → Missed u
Steps-Missed here m = m
Steps-Missed (next ss st) m = Step-Missed st (Steps-Missed ss m)

-- Any history of a new thread and its owner, whoever else asks the loop to quit. An owner that has the
-- loop's address, in the destructor too, has it behind its publication and behind the callback, which,
-- if there is one, ran exactly once.
-- An owner that waits in `StartLoop` can get the address as long as the thread has not ended; once it
-- has, the owner waits for ever.
pub start_loop_lem :
    (others has_callback : Bool) (t : EventLoopThread)
    → Steps others (new_thread has_callback) t
    → (t.owner ≡ waiting → t.place ≢ ended → CanReach others running t)
      × (t.owner ≡ waiting
          → t.place ≡ ended
          → (u : EventLoopThread) → Steps others t u
          → u.owner ≡ waiting)
      × (has_address t.owner ≡ true
          → (was_published t.place ≡ true) × (t.called ≡ (if t.has_callback then 1 else 0)))
start_loop_lem others has_callback t ss =
    let v = Steps-IsKept ss (new_thread-IsKept others has_callback) in
    (
      λ at n. waiting-CanReach others t t.place refl at n v,
      λ at e u rest. (Steps-Missed rest (at, e, ground (arith, v.set))).0,
      λ e. (v.given e, ground (arith, v.given e, v.calls)),
    )

-- Whether the call of `Quit` in the destructor reaches the loop.
abbrev pub is_heard : Place → Bool → Bool
is_heard looping q = q
is_heard left q = true
is_heard ended q = true
is_heard _ q = false

join-CanReach : (t : EventLoopThread) → t.owner ≡ joining → t.place ≡ ended → CanReach false gone t
unfolding join
join-CanReach t at e = (join t, next here (joins t at e), refl)

left-CanReach : (t : EventLoopThread) → t.owner ≡ joining → t.place ≡ left → CanReach false gone t
unfolding finish
left-CanReach t at e = first (finishes t e) (join-CanReach (finish t) at refl)

heard-CanReach :
    (t : EventLoopThread) (p : Place)
    → t.place ≡ p
    → t.owner ≡ joining
    → is_heard p t.quit ≡ true
    → CanReach false gone t
unfolding leave_loop
heard-CanReach t looping e at h =
    first (leaves t e) (left-CanReach (leave_loop t) (ground arith) (ground arith))
heard-CanReach t left e at h = left-CanReach t at e
heard-CanReach t ended e at h = join-CanReach t at e
heard-CanReach t unstarted e at h = absurd (ground arith)
heard-CanReach t starting e at h = absurd (ground arith)
heard-CanReach t initialised e at h = absurd (ground arith)
heard-CanReach t published e at h = absurd (ground arith)

-- `Loop()` has cleared the flag, or will.
abbrev Unheard : EventLoopThread → Type 0
Unheard t = (t.owner ≡ joining) × (is_heard t.place t.quit ≡ false)

Step-Unheard : {t u : EventLoopThread} → Step false t u → Unheard t → Unheard u
unfolding call_back publish enter_loop leave_loop
Step-Unheard (starts t out at) m = absurd (ground arith)
Step-Unheard (looks t at) m = absurd (ground arith)
Step-Unheard (calls_back t at) m = (m.0, refl)
Step-Unheard (publishes t at) m = (m.0, refl)
Step-Unheard (enters t at) m = (m.0, refl)
Step-Unheard (leaves t at) m = (ground arith, ground arith)
Step-Unheard (finishes t at) m = absurd (ground arith)
Step-Unheard (tests t at) m = absurd (ground arith)
Step-Unheard (calls_quit t at) m = absurd (ground arith)
Step-Unheard (joins t at e) m = absurd (ground arith)
Step-Unheard (other_quits t no_one e) m = absurd (ground arith)

Steps-Unheard : {t u : EventLoopThread} → Steps false t u → Unheard t → Unheard u
Steps-Unheard here m = m
Steps-Unheard (next ss st) m = Step-Unheard st (Steps-Unheard ss m)

-- Any history of a new thread and its owner in which nobody else asks the loop to quit: the owner
-- never calls through a null pointer. An owner that joins can come to the end of the destructor if the
-- loop runs with `quit_` set or has ended; in every other case, which are those where `Quit` came
-- before `Loop()` cleared the flag, it joins for ever.
pub destructor_lem :
    (has_callback : Bool) (t : EventLoopThread)
    → Steps false (new_thread has_callback) t
    → (t.owner ≢ crashed)
      × (t.owner ≡ joining → is_heard t.place t.quit ≡ true → CanReach false gone t)
      × (t.owner ≡ joining
          → is_heard t.place t.quit ≡ false
          → (u : EventLoopThread) → Steps false t u
          → u.owner ≡ joining)
destructor_lem has_callback t ss =
    let v = Steps-IsKept ss (new_thread-IsKept false has_callback) in
    (
      λ e. absurd (ground (arith, v.together refl)),
      λ at h. heard-CanReach t t.place refl at h,
      λ at n u rest. (Steps-Unheard rest (at, n)).0,
    )
