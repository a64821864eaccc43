-- ===== src/PollPoller/Polling.antt =====
-- PollPoller::Poll: the active channels are those of the entries that poll reports.
use ryan_network_library.Prelude.{
  ℕ, zero, suc, ◌≤◌, ◌≡◌, refl, sym, ap, ◌∙◌, inl, inr, true, false, not, ◌&&◌, Option, some, List,
  [], ◌∷◌, ◌++◌, map, append_assoc, append-nil, arith, length, get_elem?, ltb, ◌==◌, if◌then◌else◌,
  ltb_false→le, Bool-cases, is_negative,
}
use ryan_network_library.Channel.{Ready}
use ryan_network_library.EpollPoller.{put_at}
use ryan_network_library.PollPoller.{
  PollFd, PollPoller, key, is_ready, Filled, fill_active_channels, set_revents, polled, poll_failed,
  poll,
}
use ryan_network_library.PollPoller.Registration.{IsRegistered}

-- The descriptors of the entries that are ready, in order.
abbrev pub ready_fds : List PollFd → List ℕ
ready_fds [] = []
ready_fds (pfd ∷ pfds) =
    if is_ready pfd.revents then key pfd.fd ∷ ready_fds pfds else ready_fds pfds

-- poll reports nothing for a negative descriptor.
abbrev pub NoneMuted : List PollFd → Type 0
NoneMuted [] = Unit {0}
NoneMuted (pfd ∷ pfds) = (is_ready pfd.revents ≡ true → is_negative pfd.fd ≡ false) × NoneMuted pfds

module _ (fd_of : ℕ → ℕ) where
  -- The map has the channel of every entry.
  abbrev AllKnown : (ℕ → Option ℕ) → List PollFd → Type 0
  AllKnown channels [] = Unit {0}
  AllKnown channels (pfd ∷ pfds) =
      ((c : ℕ) × (channels (key pfd.fd) ≡ some c) × (fd_of c ≡ key pfd.fd)) × AllKnown channels pfds

  no_fds : (fds : List ℕ) → length fds ≤ 0 → fds ≡ []
  no_fds [] h = refl
  no_fds (x ∷ xs) h = absurd (omega arith)

  map-append_one :
      (xs : List ℕ) (c : ℕ) → map fd_of (xs ++ (c ∷ [])) ≡ map fd_of xs ++ (fd_of c ∷ [])
  map-append_one [] c = refl
  map-append_one (x ∷ xs) c = ap (λ ys. fd_of x ∷ ys) (map-append_one xs c)

  abbrev Fills : (ℕ → Option ℕ) → ℕ → List PollFd → Filled → Type 0
  Fills channels n fds s =
      (s' : Filled) × (fill_active_channels fd_of channels n fds s ≡ some s')
      × (map fd_of s'.active_channels ≡ map fd_of s.active_channels ++ ready_fds fds)

  abbrev with_active : ℕ → Ready → Filled → Filled
  with_active c r s = record {
    revents = put_at c r s.revents;
    active_channels = s.active_channels ++ (c ∷ []);
  }

  fill_hit :
      (channels : ℕ → Option ℕ) (n c : ℕ) (pfd : PollFd) (pfds : List PollFd) (s : Filled)
      → is_ready pfd.revents ≡ true
      → channels (key pfd.fd) ≡ some c
      → (not (is_negative pfd.fd) && (fd_of c == key pfd.fd)) ≡ true
      → fill_active_channels fd_of channels (suc n) (pfd ∷ pfds) s
        ≡ fill_active_channels fd_of channels n pfds (with_active c pfd.revents s)
  unfolding fill_active_channels
  fill_hit channels n c pfd pfds s ready there seen = rw (ready, there, seen) refl

  fill_miss :
      (channels : ℕ → Option ℕ) (n : ℕ) (pfd : PollFd) (pfds : List PollFd) (s : Filled)
      → is_ready pfd.revents ≡ false
      → fill_active_channels fd_of channels (suc n) (pfd ∷ pfds) s
        ≡ fill_active_channels fd_of channels (suc n) pfds s
  unfolding fill_active_channels
  fill_miss channels n pfd pfds s idle = rw idle refl

  fill_active_channels_lem :
      (channels : ℕ → Option ℕ) (n : ℕ) (fds : List PollFd) (s : Filled)
      → AllKnown channels fds
      → NoneMuted fds
      → length (ready_fds fds) ≤ n
      → Fills channels n fds s
  unfolding fill_active_channels
  fill_active_channels_lem channels n [] s known quiet enough =
      (s, refl, sym (append-nil (map fd_of s.active_channels)))
  fill_active_channels_lem channels zero (pfd ∷ pfds) s known quiet enough = (
    s,
    refl,
    rw (no_fds (ready_fds (pfd ∷ pfds)) enough) (sym (append-nil (map fd_of s.active_channels))),
  )
  fill_active_channels_lem channels (suc n) (pfd ∷ pfds) s ((c, there, own), known) (quiet, more)
        enough =
      elim (Bool-cases (is_ready pfd.revents)) [
        | inl ready ↦
            let less : suc (length (ready_fds pfds)) ≤ suc n = rw ready at enough in
            let seen : (not (is_negative pfd.fd) && (fd_of c == key pfd.fd)) ≡ true =
              ground (arith, quiet ready) in
            let s1 = with_active c pfd.revents s in
            let (s', e, f) = fill_active_channels_lem channels n pfds s1 known more (omega arith) in
            let rest : ready_fds (pfd ∷ pfds) ≡ fd_of c ∷ ready_fds pfds = rw (ready, own) refl in
            (
              s',
              fill_hit channels n c pfd pfds s ready there seen ∙ e,
              f
                  ∙ rw (rest, map-append_one s.active_channels c)
                      (append_assoc (map fd_of s.active_channels) (fd_of c ∷ []) (ready_fds pfds)),
            )
        | inr idle ↦
            let less : length (ready_fds pfds) ≤ suc n = rw idle at enough in
            let (s', e, f) = fill_active_channels_lem channels (suc n) pfds s known more less in
            let rest : ready_fds (pfd ∷ pfds) ≡ ready_fds pfds = rw idle refl in
            (
              s',
              fill_miss channels n pfd pfds s idle ∙ e,
              f ∙ ap (λ x. map fd_of s.active_channels ++ x) (sym rest),
            )
      ]

  -- Flags change neither the descriptors nor their channels.
  AllKnown-set_revents :
      (channels : ℕ → Option ℕ) (flags : List Ready) (fds : List PollFd)
      → AllKnown channels fds
      → AllKnown channels (set_revents flags fds)
  AllKnown-set_revents channels flags [] h = tt
  AllKnown-set_revents channels [] (pfd ∷ pfds) h = h
  AllKnown-set_revents channels (r ∷ flags) (pfd ∷ pfds) (k, h) =
      (k, AllKnown-set_revents channels flags pfds h)

  every-AllKnown :
      (channels : ℕ → Option ℕ) (fds : List PollFd)
      → ((i : ℕ) (x : PollFd)
          → get_elem? fds i ≡ some x
          → (c : ℕ) × (channels (key x.fd) ≡ some c) × (fd_of c ≡ key x.fd))
      → AllKnown channels fds
  every-AllKnown channels [] h = tt
  every-AllKnown channels (pfd ∷ pfds) h =
      (h 0 pfd refl, every-AllKnown channels pfds (λ i x e. h (suc i) x e))

  -- From a registered state, with no flags for the entries that `poll` passes over, and a returned number
  -- that is that of the entries with flags: `Poll` meets no assertion and changes neither the map nor the
  -- places; the descriptors of the new active channels are those of the entries with flags, in order. A
  -- failure of `poll` changes nothing, whatever its error number.
  pub poll_entries :
      (flags : List Ready) (errno : ℕ) (s : Filled) (p : PollPoller)
      → IsRegistered fd_of p
      → NoneMuted (set_revents flags p.poll_fds)
      → ((s' : Filled) × (p' : PollPoller) × (poll fd_of
              (polled (length (ready_fds (set_revents flags p.poll_fds))) flags)
              s
              p
            ≡ some (s', p'))
          × (p'.channels ≡ p.channels)
          × (p'.index ≡ p.index)
          × (p'.poll_fds ≡ set_revents flags p.poll_fds)
          × (map fd_of s'.active_channels
              ≡ map fd_of s.active_channels ++ ready_fds (set_revents flags p.poll_fds)))
        × (poll fd_of (poll_failed errno) s p ≡ some (s, p))
  unfolding poll
  poll_entries flags errno s p r quiet =
      let fds = set_revents flags p.poll_fds in
      let p' = record p { poll_fds = fds } in
      let known =
        every-AllKnown p.channels p.poll_fds
          (λ i x e. let (c, m, at) = r.held i x e in (c, m, (r.known (key x.fd) c m).0)) in
      let (s', e, f) =
        fill_active_channels_lem p.channels (length (ready_fds fds)) fds s
          (AllKnown-set_revents p.channels flags p.poll_fds known) quiet (omega arith) in
      (
        elim (Bool-cases (ltb 0 (length (ready_fds fds)))) [
          | inl some_ready ↦ (s', p', rw (some_ready, e) refl, refl, refl, refl, f)
          | inr idle ↦
              let none_ready =
                no_fds (ready_fds fds) (ltb_false→le 0 (length (ready_fds fds)) idle) in
              (
                s,
                p',
                rw idle refl,
                refl,
                refl,
                refl,
                rw none_ready (sym (append-nil (map fd_of s.active_channels))),
              )
        ],
        refl,
      )
