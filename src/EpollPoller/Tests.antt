-- ===== src/EpollPoller/Tests.antt =====
-- The theorems on the poller at concrete channels.
use ryan_network_library.Prelude.{
  ℕ, ◌+◌, ◌<◌, ◌≡◌, refl, ◌⊎◌, true, false, none, some, [], ◌∷◌, arith, ◌==◌, if◌then◌else◌,
}
use ryan_network_library.Channel.{Interest, Ready, no_events, is_none_event}
use ryan_network_library.EpollPoller.{
  EpollPoller, new_poller, fresh, added, ctl_add, is_fresh, update_channel, remove_channel, Polled,
  poll, ready, wait_failed, timed_out, quiet,
}
use ryan_network_library.EpollPoller.Registration.{
  IsRegistered, all_legal, is_legal, held, new_poller-IsRegistered, watched, update_channel_lem,
  remove_channel_lem,
}
use ryan_network_library.EpollPoller.Polling.{last_events, poll_lem}

-- Channel c has the descriptor c + 3.
abbrev fd_of : ℕ → ℕ
fd_of c = c + 3

abbrev reads : Interest
reads = record { reading = true; writing = false }

update_channel_lem_example :
    (p' : EpollPoller) × (update_channel fd_of 7 reads new_poller ≡ some p')
    × IsRegistered fd_of p'
    × (watched p'.controls 10 ≡ some 7)
unfolding new_poller
update_channel_lem_example =
    update_channel_lem fd_of 7 reads new_poller (new_poller-IsRegistered fd_of) (λ e. refl)

-- The poller after that call.
abbrev registered : EpollPoller
registered = record {
  channels = λ fd. if fd == 10 then some 7 else none;
  index = λ c. if c == 7 then added else fresh;
  controls = record { operation = ctl_add; fd = 10; events = reads; channel = 7 } ∷ [];
}

registered-IsRegistered : IsRegistered fd_of registered
unfolding watched all_legal is_legal held
registered-IsRegistered = record {
  legal = refl;
  known = λ c e. ground arith;
  holder = λ fd c e. (ground arith, ground arith);
  system = λ fd. ground arith;
}

remove_channel_lem_example :
    (is_fresh (registered.index 7) ≡ false
      → is_none_event no_events ≡ true
      → (p' : EpollPoller) × (remove_channel fd_of 7 no_events registered ≡ some p')
        × IsRegistered fd_of p'
        × (p'.index 7 ≡ fresh)
        × (p'.channels 10 ≡ none)
        × (watched p'.controls 10 ≡ none))
    × ((is_fresh (registered.index 7) ≡ true) ⊎ (is_none_event no_events ≡ false)
        → remove_channel fd_of 7 no_events registered ≡ none)
remove_channel_lem_example = remove_channel_lem fd_of 7 no_events registered registered-IsRegistered

abbrev flags : Ready
flags = record {
  readable = true;
  priority = false;
  writable = false;
  failed = false;
  hung_up = false;
}

abbrev before : Polled
before = record { capacity = 2; revents = λ c. flags; active_channels = []; report = quiet }

poll_lem_example :
    (0 < 2
      → poll (ready ((7, flags) ∷ (8, flags) ∷ [])) before ≡ record {
        capacity = 4;
        revents = last_events ((7, flags) ∷ (8, flags) ∷ []) (λ c. flags);
        active_channels = 7 ∷ 8 ∷ [];
        report = quiet;
      })
    × (◌≡◌ {A = ℕ} 2 0
        → poll (ready ((7, flags) ∷ (8, flags) ∷ [])) before ≡ record before { report = timed_out })
    × ((e : ℕ) → poll (wait_failed e) before ≡ before)
unfolding ryan_network_library.EpollPoller.Polling.reported
poll_lem_example = poll_lem ((7, flags) ∷ (8, flags) ∷ []) before (omega arith) (omega arith)
