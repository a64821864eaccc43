-- ===== src/EventLoop.antt =====
-- net/event_loop.h and net/event_loop.cc: the loop's thread, the tasks that it and other threads queue,
-- and the wake-ups through the event descriptor. A thread that queues a task gives the lock back before
-- it tests whether to write to the descriptor; what other threads do in between is part of the model. A task is a number; what it does is a sequence of
-- the steps that it may take. `eventfd` is its counter.
mod Tests
use ryan_network_library.Prelude.{
  ℕ, suc, ◌+◌, ◌-◌, ◌<◌, ltb, ◌≡◌, refl, sym, ap, ◌∙◌, ◌≢◌, ◌⊎◌, inl, inr, Bool, true, false, not,
  ◌||◌, List, [], ◌∷◌, ◌++◌, append_assoc, append-nil, arith, if◌then◌else◌, Bool-cases,
}

-- Where the loop's thread stands in `Loop()`: in `Poll`, in the callbacks of the active channels, in
-- the tasks of `DoPendingFunctors`, or behind the loop.
pub data Phase : Type 0 where
  polling handling calling stopped : Phase

pub record EventLoop : Type 0 where
  pub phase : Phase
  pub quit : Bool
  pub calling_pending_functors : Bool
  pub pending_functors : List ℕ
  pub functors : List ℕ
  pub counter : ℕ
  pub queued : List ℕ
  pub done : List ℕ
  pub waking : ℕ
  pub own_waking : ℕ

-- At the start of `Loop()`: `quit_` is cleared. `queued` and `done` are the tasks queued and run so far;
-- `waking` is the number of other threads that are in `QueueInLoop` behind the push and before the test,
-- and `own_waking` is 1 if the loop's thread is there.
unfoldable pub enter : EventLoop → EventLoop
enter l = record l { phase = polling; quit = false }

-- `Wakeup` adds one to the counter of the descriptor.
unfoldable pub wakeup : EventLoop → EventLoop
wakeup l = record l { counter = l.counter + 1 }

-- `HandleRead` takes the counter back to 0.
unfoldable pub handle_read : EventLoop → EventLoop
handle_read l = record l { counter = 0 }

-- `QueueInLoop(cb)` under the lock.
unfoldable pub push_functor : ℕ → EventLoop → EventLoop
push_functor cb l = record l {
  pending_functors = l.pending_functors ++ (cb ∷ []);
  queued = l.queued ++ (cb ∷ []);
}

-- `QueueInLoop(cb)` behind it; the first argument is `IsInLoopThread()`.
unfoldable pub wake_loop : Bool → EventLoop → EventLoop
unfolding wakeup
wake_loop in_loop l = if not in_loop || l.calling_pending_functors then wakeup l else l

-- The whole call, where nothing comes in between.
unfoldable pub queue_in_loop : Bool → ℕ → EventLoop → EventLoop
unfolding push_functor wake_loop
queue_in_loop in_loop cb l = wake_loop in_loop (push_functor cb l)

-- `RunInLoop(cb)`: whether the task runs at once, and the loop.
unfoldable pub run_in_loop : Bool → ℕ → EventLoop → Bool × EventLoop
run_in_loop in_loop cb l = if in_loop then (true, l) else (false, queue_in_loop in_loop cb l)

unfoldable pub quit_loop : Bool → EventLoop → EventLoop
unfolding wakeup
quit_loop in_loop l = let l' = record l { quit = true } in if in_loop then wakeup l' else l'

-- `DoPendingFunctors`: the flag, the swap under the lock, one task after the other, the flag.
unfoldable pub begin_functors : EventLoop → EventLoop
begin_functors l = record l {
  phase = calling;
  calling_pending_functors = true;
  functors = l.pending_functors;
  pending_functors = [];
}

unfoldable pub run_functor : ℕ → List ℕ → EventLoop → EventLoop
run_functor f rest l = record l { functors = rest; done = l.done ++ (f ∷ []) }

-- Behind the last task: the flag, and the test of `while (!quit_)`.
unfoldable pub end_functors : EventLoop → EventLoop
end_functors l = record l {
  phase = if l.quit then stopped else polling;
  calling_pending_functors = false;
}

-- The steps of the loop's thread and of the others, in any order.
pub data Step : EventLoop → EventLoop → Type 0 where
  -- Another thread queues a task, in two steps, or asks the loop to quit.
  other_pushes :
      (l : EventLoop) (cb : ℕ) → Step l (record (push_functor cb l) { waking = l.waking + 1 })
  other_wakes :
      (l : EventLoop) (n : ℕ)
      → l.waking ≡ suc n
      → Step l (record (wake_loop false l) { waking = n })
  other_quits : (l : EventLoop) → Step l (quit_loop false l)
  -- A callback or a task queues a task or asks to quit.
  self_pushes :
      (l : EventLoop) (cb : ℕ)
      → l.phase ≢ polling
      → l.own_waking ≡ 0
      → Step l (record (push_functor cb l) { own_waking = 1 })
  self_wakes :
      (l : EventLoop) → l.own_waking ≡ 1 → Step l (record (wake_loop true l) { own_waking = 0 })
  self_quits : (l : EventLoop) → l.phase ≢ polling → l.own_waking ≡ 0 → Step l (quit_loop true l)
  -- `Poll` returns: for an event, or after its time.
  poll_returns : (l : EventLoop) → l.phase ≡ polling → Step l (record l { phase = handling })
  reads_wakeup : (l : EventLoop) → l.phase ≡ handling → l.own_waking ≡ 0 → Step l (handle_read l)
  begins : (l : EventLoop) → l.phase ≡ handling → l.own_waking ≡ 0 → Step l (begin_functors l)
  runs :
      (l : EventLoop) (f : ℕ) (rest : List ℕ)
      → l.phase ≡ calling
      → l.functors ≡ f ∷ rest
      → l.own_waking ≡ 0
      → Step l (run_functor f rest l)
  ends :
      (l : EventLoop)
      → l.phase ≡ calling
      → l.functors ≡ []
      → l.own_waking ≡ 0
      → Step l (end_functors l)

pub data Steps (l : EventLoop) : EventLoop → Type 0 where
  here : Steps l l
  next : {m n : EventLoop} → Steps l m → Step m n → Steps l n

-- While tasks wait and the loop polls or runs tasks, the descriptor is ready, so that `Poll` returns at
-- once, or a thread that has queued a task still has to write to it. Tasks run in the order in which
-- they were queued.
pub record IsAwake (l : EventLoop) : Type 0 where
  pub woken :
      (l.phase ≡ polling) ⊎ (l.phase ≡ calling)
      → l.pending_functors ≢ []
      → 0 < l.counter + (l.waking + l.own_waking)
  pub settled : l.phase ≡ polling → l.own_waking ≡ 0
  pub flag : l.phase ≡ calling → l.calling_pending_functors ≡ true
  pub fresh : l.phase ≢ calling → l.functors ≡ []
  pub order : l.done ++ (l.functors ++ l.pending_functors) ≡ l.queued

queued_last :
    (l : EventLoop) (cb : ℕ)
    → l.done ++ (l.functors ++ l.pending_functors) ≡ l.queued
    → l.done ++ (l.functors ++ (l.pending_functors ++ (cb ∷ []))) ≡ l.queued ++ (cb ∷ [])
queued_last l cb e = rw (← e) (simp append_assoc)

self_wakes-IsAwake :
    (l : EventLoop)
    → l.own_waking ≡ 1
    → IsAwake l
    → IsAwake (record (wake_loop true l) { own_waking = 0 })
unfolding wake_loop
self_wakes-IsAwake l mine v = elim (Bool-cases l.calling_pending_functors) [
  | inl on ↦ rw on (record {
    woken = λ p q. omega arith;
    settled = λ p. refl;
    flag = λ p. refl;
    fresh = v.fresh;
    order = v.order;
  })
  | inr off ↦ rw off (record {
    woken = elim [ inl p ↦ λ q. absurd (omega (arith, v.settled p)) | inr p ↦ λ q. cc (v.flag p) ];
    settled = λ p. refl;
    flag = λ p. cc (v.flag p);
    fresh = v.fresh;
    order = v.order;
  })
]

polling≢calling : polling ≢ calling
polling≢calling e = cc

handling≢calling : handling ≢ calling
handling≢calling e = cc

pub Step-IsAwake : {l m : EventLoop} → Step l m → IsAwake l → IsAwake m
unfolding push_functor wake_loop quit_loop handle_read begin_functors run_functor end_functors
Step-IsAwake (other_pushes l cb) v = record {
  woken = λ p q. omega arith;
  settled = v.settled;
  flag = v.flag;
  fresh = v.fresh;
  order = queued_last l cb v.order;
}
Step-IsAwake (other_wakes l n e) v = record {
  woken = λ p q. omega arith;
  settled = v.settled;
  flag = v.flag;
  fresh = v.fresh;
  order = v.order;
}
Step-IsAwake (other_quits l) v = record {
  woken = v.woken;
  settled = v.settled;
  flag = v.flag;
  fresh = v.fresh;
  order = v.order;
}
Step-IsAwake (self_pushes l cb out idle) v = record {
  woken = λ p q. omega arith;
  settled = λ p. absurd (out p);
  flag = v.flag;
  fresh = v.fresh;
  order = queued_last l cb v.order;
}
Step-IsAwake (self_wakes l mine) v = self_wakes-IsAwake l mine v
Step-IsAwake (self_quits l out idle) v = record {
  woken = λ p q. omega arith;
  settled = v.settled;
  flag = v.flag;
  fresh = v.fresh;
  order = v.order;
}
Step-IsAwake (poll_returns l at) v = record {
  woken = elim [ inl p ↦ cc | inr p ↦ cc ];
  settled = λ p. cc;
  flag = λ p. cc;
  fresh = λ _. v.fresh (rw at polling≢calling);
  order = v.order;
}
Step-IsAwake (reads_wakeup l at idle) v = record {
  woken = elim [ inl p ↦ cc | inr p ↦ cc ];
  settled = λ p. idle;
  flag = λ p. cc;
  fresh = v.fresh;
  order = v.order;
}
Step-IsAwake (begins l at idle) v = record {
  woken = λ p q. absurd (q refl);
  settled = λ p. idle;
  flag = λ p. refl;
  fresh = λ p. absurd (p refl);
  order = rw (append-nil l.pending_functors) (
      ap (λ fs. l.done ++ (fs ++ l.pending_functors)) (sym (v.fresh (rw at handling≢calling)))
      ∙ v.order);
}
Step-IsAwake (runs l f rest at q idle) v = record {
  woken = v.woken;
  settled = v.settled;
  flag = v.flag;
  fresh = λ p. absurd (p at);
  order = rw append_assoc (sym (ap (λ fs. l.done ++ (fs ++ l.pending_functors)) q) ∙ v.order);
}
Step-IsAwake (ends l at q idle) v = record {
  woken = λ p n. v.woken (inr at) n;
  settled = λ p. idle;
  flag = λ p. ground arith;
  fresh = λ p. q;
  order = v.order;
}

Steps-keep : {l m : EventLoop} → Steps l m → IsAwake l → IsAwake m
Steps-keep here v = v
Steps-keep (next s st) v = Step-IsAwake st (Steps-keep s v)

-- From a loop in this state, whatever the loop's thread, its callbacks and the other threads do in
-- whatever order, between the push of a task and the wake-up too: while tasks wait and the thread
-- polls or runs tasks, the event descriptor is ready or a thread that queued a task is about to test
-- whether to wake the loop. So a `Poll` with tasks waiting finds the descriptor ready, or another thread
-- is behind its push, and that thread's next step makes the descriptor ready. And the tasks run so far,
-- those taken and those waiting are all the tasks queued, in the order of the queue.
pub Steps-IsAwake :
    {l m : EventLoop}
    → Steps l m
    → IsAwake l
    → IsAwake m
      × (m.phase ≡ polling
          → m.pending_functors ≢ []
          → (0 < m.counter) ⊎ ((0 < m.waking) × (0 < (wake_loop false m).counter)))
unfolding wake_loop
Steps-IsAwake {l} {m} s v =
    let w = Steps-keep s v in
    (
      w,
      λ at some_wait.
          let sum = w.woken (inl at) some_wait in
          let home = w.settled at in
          elim (Bool-cases (ltb 0 m.counter)) [
            | inl ready ↦ inl (ground arith)
            | inr empty ↦ inr (ground arith, omega arith)
          ],
    )
