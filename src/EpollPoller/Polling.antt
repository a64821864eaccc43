-- ===== src/EpollPoller/Polling.antt =====
-- What a poll reports: `Poll` and `FillActiveChannels`.
use ryan_network_library.Prelude.{
  ℕ, ◌*◌, ◌^◌, ◌≤◌, ◌<◌, ◌≡◌, refl, List, [], ◌∷◌, ◌++◌, append_assoc, append-nil, arith, length,
  ◌==◌, if◌then◌else◌,
}
use ryan_network_library.Channel.{Ready}
use ryan_network_library.EpollPoller.{
  wait_failed, ready, Polled, timed_out, fill_active_channels, poll, put_at,
}

-- The channels of some events, in order.
unfoldable pub reported : List (ℕ × Ready) → List ℕ
reported [] = []
reported ((channel, r) ∷ events) = channel ∷ reported events

-- The `revents_` of a channel after some events: the last one that names it.
pub last_events : List (ℕ × Ready) → (ℕ → Ready) → ℕ → Ready
last_events [] f = f
last_events ((channel, r) ∷ events) f = last_events events (put_at channel r f)

fill_active_channels_all :
    (events : List (ℕ × Ready)) (s : Polled)
    → fill_active_channels (length events) events s ≡ record s {
      revents = last_events events s.revents;
      active_channels = s.active_channels ++ reported events;
    }
unfolding fill_active_channels reported last_events
fill_active_channels_all [] s = rw (append-nil s.active_channels) refl
fill_active_channels_all ((channel, r) ∷ events) s =
    rw
      (
        fill_active_channels_all events (record s {
          revents = put_at channel r s.revents;
          active_channels = s.active_channels ++ (channel ∷ []);
        }),
        append_assoc s.active_channels (channel ∷ []) (reported events),
      )
      refl

-- Between 1 and as many events as `events_` has room for, which is below 2 ^ 31: every event reports
-- its channel, in order, each channel keeps its last flags, and a full `events_` is doubled. With no
-- event a time-out is logged. A failure of `epoll_wait` changes nothing and is not logged, whatever
-- its error number.
pub poll_lem :
    (events : List (ℕ × Ready)) (s : Polled)
    → length events ≤ s.capacity
    → s.capacity < 2 ^ 31
    → (0 < length events
        → poll (ready events) s ≡ record s {
          capacity = if length events == s.capacity then s.capacity * 2 else s.capacity;
          revents = last_events events s.revents;
          active_channels = s.active_channels ++ reported events;
        })
      × (length events ≡ 0 → poll (ready events) s ≡ record s { report = timed_out })
      × ((e : ℕ) → poll (wait_failed e) s ≡ s)
unfolding poll
poll_lem events s fits small = (
  λ some_event. ground (arith, fill_active_channels_all events s),
  λ e. rw e refl,
  λ e. ground arith,
)
