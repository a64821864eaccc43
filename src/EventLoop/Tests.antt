-- ===== src/EventLoop/Tests.antt =====
-- The theorem on the event loop at a concrete history.
use ryan_network_library.Prelude.{◌≡◌, ◌≢◌, ◌⊎◌, ◌<◌, refl, false, [], ◌∷◌}
use ryan_network_library.EventLoop.{
  EventLoop, polling, push_functor, wake_loop, other_pushes, Steps, here, next, IsAwake,
  Steps-IsAwake,
}

abbrev empty_loop : EventLoop
empty_loop = record {
  phase = polling;
  quit = false;
  calling_pending_functors = false;
  pending_functors = [];
  functors = [];
  counter = 0;
  queued = [];
  done = [];
  waking = 0;
  own_waking = 0;
}

empty_loop-IsAwake : IsAwake empty_loop
empty_loop-IsAwake = record {
  woken = λ p q. absurd (q refl);
  settled = λ p. refl;
  flag = λ p. cc;
  fresh = λ p. refl;
  order = refl;
}

-- A thread that has queued task 7 and has not yet written to the descriptor.
abbrev pushed : EventLoop
pushed = record empty_loop { pending_functors = 7 ∷ []; queued = 7 ∷ []; waking = 1 }

pushed-Steps : Steps empty_loop pushed
unfolding push_functor
pushed-Steps = next here (other_pushes empty_loop 7)

Steps-IsAwake_example :
    IsAwake pushed
    × (pushed.phase ≡ polling
        → pushed.pending_functors ≢ []
        → (0 < pushed.counter) ⊎ ((0 < pushed.waking) × (0 < (wake_loop false pushed).counter)))
Steps-IsAwake_example = Steps-IsAwake pushed-Steps empty_loop-IsAwake
