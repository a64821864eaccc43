-- ===== src/PollPoller/Registration.antt =====
-- The entries and the channels of the poller over poll(2) stand for one another, and an update keeps
-- them so.
use ryan_network_library.Prelude.{
  ℕ, ◌<◌, ◌≡◌, refl, sym, ap, ◌∙◌, ◌⊎◌, inl, inr, not, ◌&&◌, Option, none, some, [], ◌∷◌, ◌++◌,
  arith, length, get_elem?, set, get_elem?-set_self, ◌==◌, Bool-cases, get_elem?-lt, get_elem?-set,
  get_elem?-append_one, pos, is_negative,
}
use ryan_network_library.Channel.{Interest, is_none_event}
use ryan_network_library.EpollPoller.{put_at, is_missing}
use ryan_network_library.PollPoller.{
  PollFd, PollPoller, new_poller, no_revents, key, entry, update_channel,
}

key_or : Option PollFd → ℕ
key_or none = 0
key_or (some x) = key x.fd

pub key_same : {x y : PollFd} {fd : ℕ} → some x ≡ some y → key x.fd ≡ fd → key y.fd ≡ fd
unfolding key_or
key_same e k = sym (ap key_or e) ∙ k

module _ (fd_of : ℕ → ℕ) where
  -- A registered channel has its descriptor and an entry of its own; every entry is that of the
  -- registered channel with its descriptor.
  pub record IsRegistered (p : PollPoller) : Type 0 where
    pub known :
        (fd c : ℕ)
        → p.channels fd ≡ some c
        → (fd_of c ≡ fd)
          × (i : ℕ) × (x : PollFd) × (p.index c ≡ some i)
          × (get_elem? p.poll_fds i ≡ some x)
          × (key x.fd ≡ fd)
    pub held :
        (i : ℕ) (x : PollFd)
        → get_elem? p.poll_fds i ≡ some x
        → (c : ℕ) × (p.channels (key x.fd) ≡ some c) × (p.index c ≡ some i)

  pub new_poller-IsRegistered : IsRegistered new_poller
  unfolding new_poller
  new_poller-IsRegistered = record { known = λ fd c e. absurd cc; held = λ i x e. absurd cc }

  abbrev added : ℕ → PollFd → PollPoller → PollPoller
  added channel x p = record {
    channels = put_at (fd_of channel) (some channel) p.channels;
    index = put_at channel (some (length p.poll_fds)) p.index;
    poll_fds = p.poll_fds ++ (x ∷ []);
  }

  add_channel-known :
      (channel : ℕ) (x : PollFd) (p : PollPoller)
      → IsRegistered p
      → p.channels (fd_of channel) ≡ none
      → key x.fd ≡ fd_of channel
      → (fd c : ℕ) → (added channel x p).channels fd ≡ some c
      → (fd_of c ≡ fd)
        × (i : ℕ) × (y : PollFd) × ((added channel x p).index c ≡ some i)
        × (get_elem? (p.poll_fds ++ (x ∷ [])) i ≡ some y)
        × (key y.fd ≡ fd)
  add_channel-known channel x p r free k fd c e = elim (Bool-cases (fd == fd_of channel)) [
    | inl here ↦ (
      ground arith,
      length p.poll_fds,
      x,
      ground arith,
      ground (arith, get_elem?-append_one p.poll_fds (length p.poll_fds) x),
      ground arith,
    )
    | inr there ↦
        let old : p.channels fd ≡ some c = ground arith in
        let (f, i, y, at, found, m) = r.known fd c old in
        (
          f,
          i,
          y,
          ground arith,
          ground (arith, get_elem?-append_one p.poll_fds i x, get_elem?-lt p.poll_fds i y found),
          m,
        )
  ]

  add_channel-held :
      (channel : ℕ) (x : PollFd) (p : PollPoller)
      → IsRegistered p
      → p.channels (fd_of channel) ≡ none
      → key x.fd ≡ fd_of channel
      → (i : ℕ) (y : PollFd) → get_elem? (p.poll_fds ++ (x ∷ [])) i ≡ some y
      → (c : ℕ) × ((added channel x p).channels (key y.fd) ≡ some c)
        × ((added channel x p).index c ≡ some i)
  add_channel-held channel x p r free k i y e = elim (Bool-cases (i == length p.poll_fds)) [
    | inl here ↦
        let same : some x ≡ some y = ground (arith, get_elem?-append_one p.poll_fds i x) in
        let k' : key y.fd ≡ fd_of channel = key_same same k in (channel, ground arith, ground arith)
    | inr there ↦
        let old : get_elem? p.poll_fds i ≡ some y =
          ground (arith, get_elem?-append_one p.poll_fds i x) in
        let (c, m, at) = r.held i y old in
        (c, ground (arith, r.known (key y.fd) c m), ground (arith, r.known (key y.fd) c m))
  ]

  add_channel :
      (channel : ℕ) (x : PollFd) (p : PollPoller)
      → IsRegistered p
      → p.channels (fd_of channel) ≡ none
      → key x.fd ≡ fd_of channel
      → IsRegistered (added channel x p)
  add_channel channel x p r free k = record {
    known = add_channel-known channel x p r free k;
    held = add_channel-held channel x p r free k;
  }

  set_entry :
      (channel i : ℕ) (x : PollFd) (p : PollPoller)
      → IsRegistered p
      → p.channels (fd_of channel) ≡ some channel
      → p.index channel ≡ some i
      → i < length p.poll_fds
      → key x.fd ≡ fd_of channel
      → IsRegistered (record p { poll_fds = set p.poll_fds i x })
  set_entry channel i x p r m at small k = record {
    known = λ fd c e.
        let (f, j, y, at', found, k') = r.known fd c e in
        let (_, i0, y0, at0, found0, k0) = r.known (fd_of channel) channel m in
        elim (Bool-cases (j == i)) [
          | inl here ↦
              let same : some y0 ≡ some y = ground arith in
              let own : key y.fd ≡ fd_of channel = key_same same k0 in
              (f, j, x, at', ground (arith, get_elem?-set p.poll_fds i j x small), omega arith)
          | inr there ↦ (f, j, y, at', ground (arith, get_elem?-set p.poll_fds i j x small), k')
        ];
    held = λ j y e. elim (Bool-cases (j == i)) [
      | inl here ↦
          let same : some x ≡ some y = ground (arith, get_elem?-set p.poll_fds i j x small) in
          let k' : key y.fd ≡ fd_of channel = key_same same k in (channel, rw k' m, ground arith)
      | inr there ↦ r.held j y (ground (arith, get_elem?-set p.poll_fds i j x small))
    ];
  }

  entry-key :
      (channel : ℕ) (events : Interest) → key (entry fd_of channel events).fd ≡ fd_of channel
  unfolding is_none_event
  entry-key channel events = ground arith

  -- A registered state, and a channel that is registered or that is new with a free descriptor:
  -- `UpdateChannel` meets no assertion and keeps the state registered; the channel is in the map, and its
  -- entry has its events. Only for a channel that was there, the entry is passed over exactly if the
  -- channel watches for nothing.
  pub update_channel_keeps :
      (channel : ℕ) (events : Interest) (p : PollPoller)
      → IsRegistered p
      → ((p.channels (fd_of channel) ≡ some channel)
          ⊎ ((p.channels (fd_of channel) ≡ none) × (p.index channel ≡ none)))
      → (p' : PollPoller) × (i : ℕ) × (x : PollFd) × (update_channel fd_of channel events p
          ≡ some p')
        × IsRegistered p'
        × (p'.channels (fd_of channel) ≡ some channel)
        × (p'.index channel ≡ some i)
        × (get_elem? p'.poll_fds i ≡ some x)
        × (x.events ≡ events)
        × (is_negative x.fd
            ≡ (not (is_missing (p.channels (fd_of channel))) && is_none_event events))
  unfolding update_channel
  update_channel_keeps channel events p r (inl m) =
      let (f, i, y, at, found, k) = r.known (fd_of channel) channel m in
      let small = get_elem?-lt p.poll_fds i y found in
      (
        record p { poll_fds = set p.poll_fds i (entry fd_of channel events) },
        i,
        entry fd_of channel events,
        ground arith,
        set_entry channel i (entry fd_of channel events) p r m at small (entry-key channel events),
        m,
        at,
        get_elem?-set_self p.poll_fds i (entry fd_of channel events) small,
        refl,
        ground arith,
      )
  update_channel_keeps channel events p r (inr (free, fresh)) =
      let x : PollFd = record { fd = pos (fd_of channel); events = events; revents = no_revents } in
      (
        added channel x p,
        length p.poll_fds,
        x,
        ground arith,
        add_channel channel x p r free refl,
        ground arith,
        ground arith,
        ground (arith, get_elem?-append_one p.poll_fds (length p.poll_fds) x),
        refl,
        ground arith,
      )
