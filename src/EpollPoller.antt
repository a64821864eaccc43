-- ===== src/EpollPoller.antt =====
-- net/epoll_poller.h and epoll_poller.cc, with net/poller.h: which channels are registered, the calls of
-- `epoll_ctl`, and what `epoll_wait` gives. A channel is its address; `epoll_ctl` and `epoll_wait` are
-- the system's, so a call of the first is an entry of `controls` and the result of the second is an
-- argument.
pub mod Registration
pub mod Polling
mod Tests
use ryan_network_library.Prelude.{
  ℕ, zero, suc, ◌+◌, ◌-◌, ◌*◌, ◌%◌, ◌^◌, Bool, true, false, not, Option, none, some, List, [], ◌∷◌,
  ◌++◌, length, ltb, ◌==◌, if◌then◌else◌, ◌>>=◌, ◌>>◌, check,
}
use ryan_network_library.Channel.{Interest, Ready, is_none_event}

-- `index_` of a channel: kNew, kAdded, kDeleted.
pub data Index : Type 0 where
  fresh added deleted : Index

abbrev pub is_fresh : Index → Bool
is_fresh fresh = true
is_fresh _ = false

abbrev pub is_added : Index → Bool
is_added added = true
is_added _ = false

pub data Operation : Type 0 where
  ctl_add ctl_mod ctl_del : Operation

-- A call of `epoll_ctl`.
pub record Control : Type 0 where
  pub operation : Operation
  pub fd : ℕ
  pub events : Interest
  pub channel : ℕ

-- `channels_`, the `index_` of every channel, and the calls, the last one first.
pub record EpollPoller : Type 0 where
  pub channels : ℕ → Option ℕ
  pub index : ℕ → Index
  pub controls : List Control

unfoldable pub new_poller : EpollPoller
new_poller = record { channels = λ fd. none; index = λ channel. fresh; controls = [] }

abbrev pub put_at : {A : Type 0} → ℕ → A → (ℕ → A) → ℕ → A
put_at key value f other = if other == key then value else f other

-- Whether `channels_.find(fd)` finds this channel.
abbrev pub is_channel : Option ℕ → ℕ → Bool
is_channel none channel = false
is_channel (some c) channel = c == channel

abbrev pub is_missing : Option ℕ → Bool
is_missing none = true
is_missing (some c) = false

-- `fd_of` is the descriptor of a channel, which does not change.
module _ (fd_of : ℕ → ℕ) where
  unfoldable pub update : Operation → ℕ → Interest → EpollPoller → EpollPoller
  update operation channel events p = record p {
    controls =
        record { operation = operation; fd = fd_of channel; events = events; channel = channel }
        ∷ p.controls;
  }

  abbrev pub set_index : ℕ → Index → EpollPoller → EpollPoller
  set_index channel i p = record p { index = put_at channel i p.index }

  -- `UpdateChannel`, for a channel that watches for `events`.
  unfoldable pub update_channel : ℕ → Interest → EpollPoller → Option EpollPoller
  update_channel channel events p = elim (p.index channel) [
    | fresh ↦ (do
      check (is_missing (p.channels (fd_of channel)))
      some (
          update ctl_add channel events (
            set_index channel added
              (record p { channels = put_at (fd_of channel) (some channel) p.channels }))))
    | deleted ↦ (do
      check (is_channel (p.channels (fd_of channel)) channel)
      some (update ctl_add channel events (set_index channel added p)))
    | added ↦ (do
      check (is_channel (p.channels (fd_of channel)) channel)
      some (
          if is_none_event events
          then set_index channel deleted (update ctl_del channel events p)
          else update ctl_mod channel events p))
  ]

  -- `RemoveChannel`.
  unfoldable pub remove_channel : ℕ → Interest → EpollPoller → Option EpollPoller
  remove_channel channel events p = do
    check (is_channel (p.channels (fd_of channel)) channel)
    check (is_none_event events)
    check (not (is_fresh (p.index channel)))
    let erased = record p { channels = put_at (fd_of channel) none p.channels }
    some (
        set_index channel fresh
          (if is_added (p.index channel) then update ctl_del channel events erased else erased))

  -- `HasChannel` of the base class.
  unfoldable pub has_channel : ℕ → EpollPoller → Bool
  has_channel channel p = is_channel (p.channels (fd_of channel)) channel

-- What `epoll_wait` gives: an error number, or events, each with its channel.
pub data Waited : Type 0 where
  wait_failed : ℕ → Waited
  ready : List (ℕ × Ready) → Waited

pub data Report : Type 0 where
  quiet timed_out : Report
  wait_error : ℕ → Report

-- The length of `events_`, the `revents_` of every channel, the active channels, what was logged.
pub record Polled : Type 0 where
  pub capacity : ℕ
  pub revents : ℕ → Ready
  pub active_channels : List ℕ
  pub report : Report

-- `FillActiveChannels`, over the first `num_events` of `events_`.
unfoldable pub fill_active_channels : ℕ → List (ℕ × Ready) → Polled → Polled
fill_active_channels zero events s = s
fill_active_channels (suc num_events) [] s = s
fill_active_channels (suc num_events) ((channel, r) ∷ events) s =
    fill_active_channels num_events events (record s {
      revents = put_at channel r s.revents;
      active_channels = s.active_channels ++ (channel ∷ []);
    })

-- `num_events` is a size_t: the -1 of an error is 2 ^ 64 - 1.
abbrev num_events_of : Waited → ℕ
num_events_of (wait_failed e) = 2 ^ 64 - 1
num_events_of (ready events) = length events

abbrev events_of : Waited → List (ℕ × Ready)
events_of (wait_failed e) = []
events_of (ready events) = events

abbrev errno_of : Waited → ℕ
errno_of (wait_failed e) = e
errno_of (ready events) = 0

-- The turns of `for (int i = 0; i < num_events; ++i)`: an int of 32 bits, none where it is negative.
abbrev int_turns : ℕ → ℕ
int_turns n = if ltb (n % 2 ^ 32) (2 ^ 31) then n % 2 ^ 32 else 0

-- EINTR is 4.
unfoldable pub poll : Waited → Polled → Polled
unfolding fill_active_channels
poll w s =
    let n = num_events_of w in
    let filled = fill_active_channels (int_turns n) (events_of w) s in
    if ltb 0 n
    then (if n == filled.capacity then record filled { capacity = filled.capacity * 2 } else filled)
    else (if n == 0
        then record s { report = timed_out }
        else (if errno_of w == 4 then s else record s { report = wait_error (errno_of w) }))
