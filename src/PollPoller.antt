-- ===== src/PollPoller.antt =====
-- net/poll_poller.h and poll_poller.cc: the poller over poll(2). A channel is its address, and its
-- `index_` the place of its entry in `poll_fds_`; `none` is a negative index. An entry with the
-- descriptor -fd - 1 is one that `poll` passes over.
pub mod Registration
pub mod Removal
pub mod Polling
mod Tests
use ryan_network_library.Prelude.{
  ℕ, zero, suc, ◌+◌, ◌-◌, Bool, false, not, ◌&&◌, ◌||◌, Option, none, some, List, [], ◌∷◌, ◌++◌,
  length, get_elem?, set, take, ltb, ◌==◌, if◌then◌else◌, ◌>>=◌, ◌>>◌, check, ℤ, pos, negsuc,
  is_negative,
}
use ryan_network_library.Channel.{Interest, Ready, is_none_event}
use ryan_network_library.EpollPoller.{put_at, is_channel, is_missing}

-- `struct pollfd`.
pub record PollFd : Type 0 where
  pub fd : ℤ
  pub events : Interest
  pub revents : Ready

pub record PollPoller : Type 0 where
  pub channels : ℕ → Option ℕ
  pub index : ℕ → Option ℕ
  pub poll_fds : List PollFd

unfoldable pub new_poller : PollPoller
new_poller = record { channels = λ fd. none; index = λ channel. none; poll_fds = [] }

abbrev pub no_revents : Ready
no_revents = record {
  readable = false;
  priority = false;
  writable = false;
  failed = false;
  hung_up = false;
}

-- The descriptor of the channel that an entry stands for: `fd`, or `-fd - 1` where `fd` is negative.
abbrev pub key : ℤ → ℕ
key (pos n) = n
key (negsuc n) = n

abbrev pub is_muted : ℤ → ℕ → Bool
is_muted (pos n) fd = false
is_muted (negsuc n) fd = n == fd

abbrev same : Bool → Bool → Bool
same a b = if a then b else not b

abbrev pub same_events : Interest → Interest → Bool
same_events a b = same a.reading b.reading && same a.writing b.writing

-- What `FillActiveChannels` leaves: the `revents_` of every channel, and the active channels.
pub record Filled : Type 0 where
  pub revents : ℕ → Ready
  pub active_channels : List ℕ

-- What `poll` gives.
pub data PollResult : Type 0 where
  polled : ℕ → List Ready → PollResult
  poll_failed : ℕ → PollResult

abbrev pub is_ready : Ready → Bool
is_ready r = r.readable || r.priority || r.writable || r.failed || r.hung_up

-- `poll_fds_` with what `poll` puts into `revents`.
abbrev pub set_revents : List Ready → List PollFd → List PollFd
set_revents flags [] = []
set_revents [] (pfd ∷ pfds) = pfd ∷ pfds
set_revents (r ∷ flags) (pfd ∷ pfds) = record pfd { revents = r } ∷ set_revents flags pfds

-- `fd_of` is the descriptor of a channel, which does not change.
module _ (fd_of : ℕ → ℕ) where
  abbrev pub entry : ℕ → Interest → PollFd
  entry channel events = record {
    fd = if is_none_event events then negsuc (fd_of channel) else pos (fd_of channel);
    events = events;
    revents = no_revents;
  }

  -- `UpdateChannel`, for a channel that watches for `events`. A new entry is not passed over, whatever
  -- it watches for.
  unfoldable pub update_channel : ℕ → Interest → PollPoller → Option PollPoller
  update_channel channel events p = elim (p.index channel) [
    | none ↦ (do
      check (is_missing (p.channels (fd_of channel)))
      some (record {
        channels = put_at (fd_of channel) (some channel) p.channels;
        index = put_at channel (some (length p.poll_fds)) p.index;
        poll_fds =
            p.poll_fds
            ++ (record { fd = pos (fd_of channel); events = events; revents = no_revents } ∷ []);
      }))
    | some idx ↦ (do
      check (is_channel (p.channels (fd_of channel)) channel)
      pfd ← get_elem? p.poll_fds idx
      check (key pfd.fd == fd_of channel)
      some (record p { poll_fds = set p.poll_fds idx (entry channel events) }))
  ]

  abbrev pop_back : List PollFd → List PollFd
  pop_back fds = take (length fds - 1) fds

  -- The swap with the last entry, whose channel gets the place of the removed one.
  unfoldable pub move_back : ℕ → PollPoller → Option PollPoller
  move_back idx p = do
    back ← get_elem? p.poll_fds (length p.poll_fds - 1)
    channel ← p.channels (key back.fd)
    some (record p {
      index = put_at channel (some idx) p.index;
      poll_fds = pop_back (set p.poll_fds idx back);
    })

  -- The part of `RemoveChannel` behind `channels_.erase`. The removed channel keeps its `index_`.
  unfoldable pub remove_entry : ℕ → PollPoller → Option PollPoller
  unfolding move_back
  remove_entry idx p =
      if idx == length p.poll_fds - 1
      then some (record p { poll_fds = pop_back p.poll_fds })
      else move_back idx p

  -- `RemoveChannel`.
  unfoldable pub remove_channel : ℕ → Interest → PollPoller → Option PollPoller
  unfolding remove_entry
  remove_channel channel events p = do
    check (is_channel (p.channels (fd_of channel)) channel)
    check (is_none_event events)
    idx ← p.index channel
    pfd ← get_elem? p.poll_fds idx
    check (is_muted pfd.fd (fd_of channel) && same_events pfd.events events)
    remove_entry idx (record p { channels = put_at (fd_of channel) none p.channels })

  -- `FillActiveChannels` over the entries; `num_events` counts down.
  unfoldable pub fill_active_channels : (ℕ → Option ℕ) → ℕ → List PollFd → Filled → Option Filled
  fill_active_channels channels num_events [] s = some s
  fill_active_channels channels zero (pfd ∷ pfds) s = some s
  fill_active_channels channels (suc n) (pfd ∷ pfds) s =
      let skipped = fill_active_channels channels (suc n) pfds s in
      let next : ℕ → Option Filled = λ channel. fill_active_channels channels n pfds (record {
        revents = put_at channel pfd.revents s.revents;
        active_channels = s.active_channels ++ (channel ∷ []);
      }) in
      if is_ready pfd.revents
      then (do
        channel ← channels (key pfd.fd)
        check (not (is_negative pfd.fd) && (fd_of channel == key pfd.fd))
        next channel)
      else skipped

  -- `Poll`: `polled` has the number that `poll` returns and the flags that it sets.
  unfoldable pub poll : PollResult → Filled → PollPoller → Option (Filled × PollPoller)
  unfolding fill_active_channels
  poll (poll_failed errno) s p = some (s, p)
  poll (polled num_events flags) s p =
      let p' = record p { poll_fds = set_revents flags p.poll_fds } in
      if ltb 0 num_events
      then (do s' ← fill_active_channels p'.channels num_events p'.poll_fds s; some (s', p'))
      else some (s, p')
