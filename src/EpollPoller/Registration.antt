-- ===== src/EpollPoller/Registration.antt =====
-- What the poller and the system agree on: the descriptors that `epoll` watches are those of the
-- channels with the index kAdded, and no call of `epoll_ctl` fails for the state of its descriptor.
use ryan_network_library.Prelude.{
  ℕ, ◌≡◌, refl, ◌⊎◌, inl, inr, Bool, true, false, not, ◌&&◌, Option, none, some, List, [], ◌∷◌,
  arith, ◌==◌, if◌then◌else◌, Bool-cases, Option-cases,
}
use ryan_network_library.Channel.{Interest, is_none_event}
use ryan_network_library.EpollPoller.{
  Index, fresh, added, deleted, is_fresh, is_added, Operation, ctl_add, ctl_mod, ctl_del, Control,
  EpollPoller, new_poller, put_at, is_missing, update, set_index, update_channel, remove_channel,
}

-- The channel that `epoll` holds for a descriptor, as its manual describes the three operations.
unfoldable pub watched : List Control → ℕ → Option ℕ
watched [] fd = none
watched (c ∷ cs) fd =
    if fd == c.fd
    then elim c.operation [ ctl_add ↦ some c.channel | ctl_mod ↦ some c.channel | ctl_del ↦ none ]
    else watched cs fd

-- What a call needs: ADD fails for a descriptor that is registered, MOD and DEL for one that is not.
unfoldable pub is_legal : Operation → Option ℕ → Bool
is_legal ctl_add o = is_missing o
is_legal ctl_mod o = not (is_missing o)
is_legal ctl_del o = not (is_missing o)

unfoldable pub all_legal : List Control → Bool
unfolding watched is_legal
all_legal [] = true
all_legal (c ∷ cs) = is_legal c.operation (watched cs c.fd) && all_legal cs

-- What the poller's own state says of a descriptor.
unfoldable pub held : EpollPoller → ℕ → Option ℕ
held p fd = elim (p.channels fd) [
  | none ↦ none
  | some c ↦ if is_added (p.index c) then some c else none
]

module _ (fd_of : ℕ → ℕ) where
  pub record IsRegistered (p : EpollPoller) : Type 0 where
    pub legal : all_legal p.controls ≡ true
    pub known : (c : ℕ) → is_fresh (p.index c) ≡ false → p.channels (fd_of c) ≡ some c
    pub holder :
        (fd c : ℕ) → p.channels fd ≡ some c → (fd_of c ≡ fd) × (is_fresh (p.index c) ≡ false)
    pub system : (fd : ℕ) → watched p.controls fd ≡ held p fd

  pub new_poller-IsRegistered : IsRegistered new_poller
  unfolding new_poller all_legal held
  new_poller-IsRegistered = record {
    legal = refl;
    known = λ c e. ground arith;
    holder = λ fd c e. ground arith;
    system = λ fd. refl;
  }

  add_fresh :
      (channel : ℕ) (events : Interest) (p : EpollPoller)
      → IsRegistered p
      → p.index channel ≡ fresh
      → p.channels (fd_of channel) ≡ none
      → IsRegistered (
          update fd_of ctl_add channel events (
            set_index fd_of channel added
              (record p { channels = put_at (fd_of channel) (some channel) p.channels })))
  unfolding update all_legal held
  add_fresh channel events p i e free = record {
    legal = ground (arith, i.legal, i.system (fd_of channel));
    known = λ c k. ground (arith, i.known c);
    holder = λ fd c k. (ground (arith, i.holder fd c), ground (arith, i.holder fd c));
    system = λ fd. elim (Option-cases (p.channels fd)) [
      | inl missing ↦ ground (arith, i.system fd)
      | inr found ↦ ground (arith, i.system fd, i.holder fd found.0 found.1)
    ];
  }

  add_deleted :
      (channel : ℕ) (events : Interest) (p : EpollPoller)
      → IsRegistered p
      → p.index channel ≡ deleted
      → IsRegistered (update fd_of ctl_add channel events (set_index fd_of channel added p))
  unfolding update all_legal held
  add_deleted channel events p i e = record {
    legal = ground (arith, i.legal, i.system (fd_of channel), i.known channel);
    known = λ c k. ground (arith, i.known c, i.known channel);
    holder = λ fd c k. (ground (arith, i.holder fd c), ground (arith, i.holder fd c));
    system = λ fd. elim (Option-cases (p.channels fd)) [
      | inl missing ↦ ground (arith, i.system fd, i.known channel)
      | inr found ↦ ground (arith, i.system fd, i.holder fd found.0 found.1, i.known channel)
    ];
  }

  delete_added :
      (channel : ℕ) (events : Interest) (p : EpollPoller)
      → IsRegistered p
      → p.index channel ≡ added
      → IsRegistered (set_index fd_of channel deleted (update fd_of ctl_del channel events p))
  unfolding update all_legal held
  delete_added channel events p i e = record {
    legal = ground (arith, i.legal, i.system (fd_of channel), i.known channel);
    known = λ c k. ground (arith, i.known c, i.known channel);
    holder = λ fd c k. (ground (arith, i.holder fd c), ground (arith, i.holder fd c));
    system = λ fd. elim (Option-cases (p.channels fd)) [
      | inl missing ↦ ground (arith, i.system fd, i.known channel)
      | inr found ↦ ground (arith, i.system fd, i.holder fd found.0 found.1, i.known channel)
    ];
  }

  modify_added :
      (channel : ℕ) (events : Interest) (p : EpollPoller)
      → IsRegistered p
      → p.index channel ≡ added
      → IsRegistered (update fd_of ctl_mod channel events p)
  unfolding update all_legal held
  modify_added channel events p i e = record {
    legal = ground (arith, i.legal, i.system (fd_of channel), i.known channel);
    known = i.known;
    holder = i.holder;
    system = λ fd. elim (Option-cases (p.channels fd)) [
      | inl missing ↦ ground (arith, i.system fd, i.known channel)
      | inr found ↦ ground (arith, i.system fd, i.holder fd found.0 found.1, i.known channel)
    ];
  }

  abbrev erase : ℕ → EpollPoller → EpollPoller
  erase channel p = record p { channels = put_at (fd_of channel) none p.channels }

  remove_added :
      (channel : ℕ) (events : Interest) (p : EpollPoller)
      → IsRegistered p
      → p.index channel ≡ added
      → IsRegistered
          (set_index fd_of channel fresh (update fd_of ctl_del channel events (erase channel p)))
  unfolding update all_legal held
  remove_added channel events p i e = record {
    legal = ground (arith, i.legal, i.system (fd_of channel), i.known channel);
    known = λ c k. ground (arith, i.known c, i.known channel);
    holder =
        λ fd c k. (ground (arith, i.holder fd c), ground (arith, i.holder fd c, i.known channel));
    system = λ fd. elim (Option-cases (p.channels fd)) [
      | inl missing ↦ ground (arith, i.system fd, i.known channel)
      | inr found ↦ ground (arith, i.system fd, i.holder fd found.0 found.1, i.known channel)
    ];
  }

  remove_deleted :
      (channel : ℕ) (p : EpollPoller)
      → IsRegistered p
      → p.index channel ≡ deleted
      → IsRegistered (set_index fd_of channel fresh (erase channel p))
  unfolding update all_legal held
  remove_deleted channel p i e = record {
    legal = i.legal;
    known = λ c k. ground (arith, i.known c, i.known channel);
    holder =
        λ fd c k. (ground (arith, i.holder fd c), ground (arith, i.holder fd c, i.known channel));
    system = λ fd. elim (Option-cases (p.channels fd)) [
      | inl missing ↦ ground (arith, i.system fd, i.known channel)
      | inr found ↦ ground (arith, i.system fd, i.holder fd found.0 found.1, i.known channel)
    ];
  }

  Index-cases : (x : Index) → (x ≡ fresh) ⊎ (x ≡ added) ⊎ (x ≡ deleted)
  Index-cases fresh = inl refl
  Index-cases added = inr (inl refl)
  Index-cases deleted = inr (inr refl)

  update-added :
      (channel : ℕ) (events : Interest) (p : EpollPoller)
      → IsRegistered p
      → p.index channel ≡ added
      → update_channel fd_of channel events p
        ≡ some (
            if is_none_event events
            then set_index fd_of channel deleted (update fd_of ctl_del channel events p)
            else update fd_of ctl_mod channel events p)
  unfolding update_channel
  update-added channel events p i e = ground (arith, i.known channel)

  unwatched :
      (channel : ℕ) (p : EpollPoller)
      → IsRegistered p
      → p.index channel ≡ deleted
      → watched p.controls (fd_of channel) ≡ none
  unfolding held
  unwatched channel p i e = ground (arith, i.system (fd_of channel), i.known channel)

  -- A registered state, and a channel that is in the map or whose descriptor is free:
  -- `UpdateChannel` meets no assertion, keeps the state registered, and leaves `epoll` watching the
  -- channel exactly when the channel was not watched or still watches for an event.
  pub update_channel_lem :
      (channel : ℕ) (events : Interest) (p : EpollPoller)
      → IsRegistered p
      → (is_fresh (p.index channel) ≡ true → p.channels (fd_of channel) ≡ none)
      → (p' : EpollPoller) × (update_channel fd_of channel events p ≡ some p')
        × IsRegistered p'
        × (watched p'.controls (fd_of channel)
            ≡ (if is_added (p.index channel) && is_none_event events then none else some channel))
  unfolding update_channel update watched
  update_channel_lem channel events p i free = elim (Index-cases (p.index channel)) [
    | inl e ↦ (
      _,
      ground (arith, free (rw e refl)),
      add_fresh channel events p i e (free (rw e refl)),
      ground arith,
    )
    | inr (inl e) ↦ elim (Bool-cases (is_none_event events)) [
      | inl empty ↦ (
        _,
        rw (update-added channel events p i e, empty) refl,
        delete_added channel events p i e,
        ground arith,
      )
      | inr some_event ↦ (
        _,
        rw (update-added channel events p i e, some_event) refl,
        modify_added channel events p i e,
        ground arith,
      )
    ]
    | inr (inr e) ↦
        (_, ground (arith, i.known channel), add_deleted channel events p i e, ground arith)
  ]

  -- For a registered state, `RemoveChannel` succeeds exactly for a channel that is in the map and
  -- watches for nothing; then the state stays registered, and neither the poller nor `epoll` holds
  -- the descriptor.
  pub remove_channel_lem :
      (channel : ℕ) (events : Interest) (p : EpollPoller)
      → IsRegistered p
      → (is_fresh (p.index channel) ≡ false
          → is_none_event events ≡ true
          → (p' : EpollPoller) × (remove_channel fd_of channel events p ≡ some p')
            × IsRegistered p'
            × (p'.index channel ≡ fresh)
            × (p'.channels (fd_of channel) ≡ none)
            × (watched p'.controls (fd_of channel) ≡ none))
        × ((is_fresh (p.index channel) ≡ true) ⊎ (is_none_event events ≡ false)
            → remove_channel fd_of channel events p ≡ none)
  unfolding remove_channel update watched
  remove_channel_lem channel events p i = (
    λ e n. elim (Index-cases (p.index channel)) [
      | inl f ↦ absurd (ground arith)
      | inr (inl f) ↦ (
        _,
        ground (arith, i.known channel),
        remove_added channel events p i f,
        ground arith,
        ground arith,
        ground arith,
      )
      | inr (inr f) ↦ (
        _,
        ground (arith, i.known channel),
        remove_deleted channel p i f,
        ground arith,
        ground arith,
        unwatched channel p i f,
      )
    ],
    λ why. ground (arith, i.known channel),
  )
