-- ===== src/CountDownLatch/Tests.antt =====
-- A latch of two and three threads.
use ryan_network_library.Prelude.{◌+◌, ◌≤◌, ◌<◌, ◌≡◌, refl, List, [], ◌∷◌, length}
use ryan_network_library.CountDownLatch.{new_latch, Event, waits, counts_down, run, run_lem}

abbrev events : List Event
events = waits 1 ∷ counts_down ∷ waits 2 ∷ counts_down ∷ waits 3 ∷ counts_down ∷ []

run_lem_example :
    (3 < 2 → (run events (new_latch 2)).passed ≡ [])
    × (2 ≤ 3 → (run events (new_latch 2)).waiting ≡ [])
    × (length (run events (new_latch 2)).waiting + length (run events (new_latch 2)).passed ≡ 3)
run_lem_example = run_lem 2 events

all_passed : (run events (new_latch 2)).passed ≡ 3 ∷ 2 ∷ 1 ∷ []
unfolding run new_latch
all_passed = refl
