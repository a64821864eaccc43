-- ===== src/PollPoller/Tests.antt =====
-- The theorems on the poller over poll(2) at concrete channels.
use ryan_network_library.Prelude.{
  ℕ, zero, suc, ◌+◌, ◌≡◌, refl, inl, inr, true, false, none, some, List, [], ◌∷◌, arith, length,
  get_elem?, ◌==◌, if◌then◌else◌, Bool-cases, pos, negsuc, is_negative,
}
use ryan_network_library.Channel.{Ready, Interest, no_events, is_none_event}
use ryan_network_library.PollPoller.{
  PollFd, PollPoller, no_revents, key, update_channel, remove_channel, fill_active_channels, Filled,
}
use ryan_network_library.PollPoller.Registration.{IsRegistered, key_same, update_channel_keeps}
use ryan_network_library.PollPoller.Removal.{remove_channel_keeps}

-- Channel c has the descriptor c + 3.
abbrev fd_of : ℕ → ℕ
fd_of c = c + 3

abbrev reads : Interest
reads = record { reading = true; writing = false }

-- Channel 7 is muted in front of channel 8.
abbrev poller : PollPoller
poller = record {
  channels = λ fd. if fd == 10 then some 7 else (if fd == 11 then some 8 else none);
  index = λ c. if c == 7 then some 0 else (if c == 8 then some 1 else none);
  poll_fds =
      record { fd = negsuc 10; events = no_events; revents = no_revents }
      ∷ record { fd = pos 11; events = reads; revents = no_revents }
      ∷ [];
}

poller-IsRegistered : IsRegistered fd_of poller
poller-IsRegistered = record {
  known = λ fd c e. elim (Bool-cases (fd == 10)) [
    | inl first ↦ (
      ground arith,
      0,
      record { fd = negsuc 10; events = no_events; revents = no_revents },
      ground arith,
      refl,
      ground arith,
    )
    | inr rest ↦ (
      ground arith,
      1,
      record { fd = pos 11; events = reads; revents = no_revents },
      ground arith,
      refl,
      ground arith,
    )
  ];
  held = held;
}
  where
    held :
        (i : ℕ) (x : PollFd)
        → get_elem? poller.poll_fds i ≡ some x
        → (c : ℕ) × (poller.channels (key x.fd) ≡ some c) × (poller.index c ≡ some i)
    held zero x e = let k : key x.fd ≡ 10 = key_same e refl in (7, ground arith, refl)
    held (suc zero) x e = let k : key x.fd ≡ 11 = key_same e refl in (8, ground arith, refl)
    held (suc (suc i)) x e = absurd cc

update_channel_keeps_example :
    (p' : PollPoller) × (i : ℕ) × (x : PollFd) × (update_channel fd_of 9 no_events poller ≡ some p')
    × IsRegistered fd_of p'
    × (p'.channels 12 ≡ some 9)
    × (p'.index 9 ≡ some i)
    × (get_elem? p'.poll_fds i ≡ some x)
    × (x.events ≡ no_events)
    × (is_negative x.fd ≡ false)
update_channel_keeps_example =
    update_channel_keeps fd_of 9 no_events poller poller-IsRegistered (inr (refl, refl))

remove_channel_keeps_example :
    (true ≡ true
      → (p' : PollPoller) × (remove_channel fd_of 7 no_events poller ≡ some p')
        × IsRegistered fd_of p'
        × (length p'.poll_fds + 1 ≡ 2)
        × ((fd : ℕ) → p'.channels fd ≡ (if fd == 10 then none else poller.channels fd))
        × ((events' : Interest) → update_channel fd_of 7 events' p' ≡ none))
    × (true ≡ false → remove_channel fd_of 7 no_events poller ≡ none)
unfolding is_none_event
remove_channel_keeps_example =
    remove_channel_keeps fd_of 7 0 no_events
      (record { fd = negsuc 10; events = no_events; revents = no_revents }) poller
      poller-IsRegistered refl refl refl refl

abbrev nothing_filled : Filled
nothing_filled = record { revents = λ c. no_revents; active_channels = [] }

-- poll reports channel 8 and not the muted one.
abbrev flags : List Ready
flags = no_revents ∷ record no_revents { readable = true } ∷ []

-- A new channel that watches for nothing is not passed over, and cannot be removed.
abbrev with_idle : PollPoller
with_idle = record {
  channels = λ fd. if fd == 12 then some 9 else none;
  index = λ c. if c == 9 then some 0 else none;
  poll_fds = record { fd = pos 12; events = no_events; revents = no_revents } ∷ [];
}

idle_refused : remove_channel fd_of 9 no_events with_idle ≡ none
unfolding remove_channel is_none_event
idle_refused = refl

-- Two entries are ready, and `poll` counted one.
filled :
    fill_active_channels fd_of poller.channels 1
      (record { fd = pos 11; events = reads; revents = record no_revents { readable = true } }
        ∷ record { fd = pos 10; events = reads; revents = record no_revents { readable = true } }
        ∷ [])
      (record { revents = λ c. no_revents; active_channels = [] })
    ≡ some (record {
      revents = λ c. if c == 8 then record no_revents { readable = true } else no_revents;
      active_channels = 8 ∷ [];
    })
unfolding fill_active_channels
filled = refl
