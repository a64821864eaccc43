-- ===== src/PollPoller/Removal.antt =====
-- The removal of a channel from the poller over poll(2): the others keep their entries, and the last
-- entry takes the free place.
use ryan_network_library.Prelude.{
  ℕ, suc, ◌+◌, ◌-◌, ◌<◌, ◌≡◌, refl, sym, ap, ◌∙◌, ◌≢◌, inl, inr, true, false, ◌&&◌, none, some,
  List, arith, length, get_elem?, set, take, length-set, get_elem?-set_self, length-take, ◌==◌,
  if◌then◌else◌, Bool-cases, get_elem?-lt, get_elem?-some, get_elem?-set, get_elem?-take,
}
use ryan_network_library.Channel.{Interest, is_none_event}
use ryan_network_library.EpollPoller.{put_at}
use ryan_network_library.PollPoller.{
  PollFd, PollPoller, key, is_muted, same_events, move_back, remove_entry, remove_channel,
  update_channel,
}
use ryan_network_library.PollPoller.Registration.{IsRegistered, key_same}

module _ (fd_of : ℕ → ℕ) where
  abbrev erased : ℕ → PollPoller → PollPoller
  erased channel p = record p { channels = put_at (fd_of channel) none p.channels }

  abbrev cut_last : List PollFd → List PollFd
  cut_last fds = take (length fds - 1) fds

  -- Another entry than that of `channel` is not of its descriptor.
  apart :
      (channel idx : ℕ) (p : PollPoller)
      → IsRegistered fd_of p
      → p.channels (fd_of channel) ≡ some channel
      → p.index channel ≡ some idx
      → (j : ℕ) (y : PollFd) → get_elem? p.poll_fds j ≡ some y
      → j ≢ idx
      → key y.fd ≢ fd_of channel
  apart channel idx p r m at j y found other same =
      let (c, m', at') = r.held j y found in absurd (ground (arith, ap p.channels same))

  -- Nor does another descriptor have the entry of `channel`.
  unlike :
      (channel idx : ℕ) (p : PollPoller)
      → IsRegistered fd_of p
      → p.channels (fd_of channel) ≡ some channel
      → p.index channel ≡ some idx
      → (fd j : ℕ) (y : PollFd) → get_elem? p.poll_fds j ≡ some y
      → key y.fd ≡ fd
      → fd ≢ fd_of channel
      → j ≢ idx
  unlike channel idx p r m at fd j y found k other same =
      let (_, i0, y0, at0, found0, k0) = r.known (fd_of channel) channel m in
      let one : some y0 ≡ some y = ground arith in other (sym k ∙ key_same one k0)

  -- A channel that the erased map has is another one.
  still :
      (channel : ℕ) (p : PollPoller) (fd c : ℕ)
      → (erased channel p).channels fd ≡ some c
      → (fd ≢ fd_of channel) × (p.channels fd ≡ some c)
  still channel p fd c e = (λ s. absurd (ground (arith, e)), ground (arith, e))

  within :
      (fds : List PollFd) (j : ℕ) (y : PollFd)
      → get_elem? fds j ≡ some y
      → suc j ≢ length fds
      → get_elem? (cut_last fds) j ≡ some y
  within fds j y e h = ground (arith, get_elem?-take (length fds - 1) fds j, get_elem?-lt fds j y e)

  from_cut :
      (fds : List PollFd) (j : ℕ) (y : PollFd)
      → get_elem? (cut_last fds) j ≡ some y
      → (get_elem? fds j ≡ some y) × (suc j < length fds)
  from_cut fds j y e = (
    ground (arith, get_elem?-take (length fds - 1) fds j),
    ground (arith, get_elem?-take (length fds - 1) fds j),
  )

  remove_last :
      (channel idx : ℕ) (p : PollPoller)
      → IsRegistered fd_of p
      → p.channels (fd_of channel) ≡ some channel
      → p.index channel ≡ some idx
      → suc idx ≡ length p.poll_fds
      → IsRegistered fd_of (record (erased channel p) { poll_fds = cut_last p.poll_fds })
  remove_last channel idx p r m at end = record {
    known = λ fd c e.
        let (other, old) = still channel p fd c e in
        let (f, j, y, at', found, k') = r.known fd c old in
        let away = unlike channel idx p r m at fd j y found k' other in
        (f, j, y, at', within p.poll_fds j y found (omega (arith, away)), k');
    held = λ j y e.
        let (old, below) = from_cut p.poll_fds j y e in
        let (c, m', at') = r.held j y old in
        let other = apart channel idx p r m at j y old (omega arith) in
        (c, ground (arith, other), at');
  }

  remove_inside :
      (channel idx moved : ℕ) (back : PollFd) (p : PollPoller)
      → IsRegistered fd_of p
      → p.channels (fd_of channel) ≡ some channel
      → p.index channel ≡ some idx
      → suc idx < length p.poll_fds
      → get_elem? p.poll_fds (length p.poll_fds - 1) ≡ some back
      → p.channels (key back.fd) ≡ some moved
      → p.index moved ≡ some (length p.poll_fds - 1)
      → IsRegistered fd_of (record (erased channel p) {
        index = put_at moved (some idx) p.index;
        poll_fds = cut_last (set p.poll_fds idx back);
      })
  remove_inside channel idx moved back p r m at small last mb ab =
      let n = length-set p.poll_fds idx back in
      let other_back = apart channel idx p r m at (length p.poll_fds - 1) back last (omega arith) in
      record {
        known = λ fd c e.
            let (other, old) = still channel p fd c e in
            let (f, j, y, at', found, k') = r.known fd c old in
            let away = unlike channel idx p r m at fd j y found k' other in
            elim (Bool-cases (suc j == length p.poll_fds)) [
              | inl here ↦
                  let one : some back ≡ some y = ground arith in
                  let kb : key back.fd ≡ fd = key_same (sym one) k' in
                  let cm : some moved ≡ some c = sym mb ∙ ap p.channels kb ∙ old in
                  (
                    f,
                    idx,
                    back,
                    ground (arith, cm),
                    within (set p.poll_fds idx back) idx back
                        (get_elem?-set_self p.poll_fds idx back (omega arith)) (omega (arith, n)),
                    kb,
                  )
              | inr there ↦
                  let not_last : suc j ≢ length p.poll_fds = ground arith in
                  (
                    f,
                    j,
                    y,
                    ground (arith, ab),
                    within (set p.poll_fds idx back) j y
                        (ground (arith, get_elem?-set p.poll_fds idx j back (omega arith), away))
                        (omega (arith, n, not_last)),
                    k',
                  )
            ];
        held = λ j y e.
            let (old, below) = from_cut (set p.poll_fds idx back) j y e in
            elim (Bool-cases (j == idx)) [
              | inl here ↦
                  let one : some back ≡ some y =
                    ground (arith, get_elem?-set p.poll_fds idx j back (omega arith)) in
                  let kb : key y.fd ≡ key back.fd = key_same one refl in
                  (moved, rw kb (ground (arith, mb, other_back)), ground arith)
              | inr there ↦
                  let found : get_elem? p.poll_fds j ≡ some y =
                    ground (arith, get_elem?-set p.poll_fds idx j back (omega arith)) in
                  let (c, m', at') = r.held j y found in
                  let other = apart channel idx p r m at j y found (ground arith) in
                  (c, ground (arith, other), ground (arith, ab, n))
            ];
      }

  -- A registered state, and a channel in its map with no events and a muted entry: `RemoveChannel`
  -- meets no assertion, keeps the state registered with one entry less, and takes exactly this channel
  -- out of the map. It then has no place in the map but keeps its index, so that the next update of it
  -- fails an assertion. A channel whose entry is not passed over is refused.
  pub remove_channel_keeps :
      (channel idx : ℕ) (events : Interest) (pfd : PollFd) (p : PollPoller)
      → IsRegistered fd_of p
      → p.channels (fd_of channel) ≡ some channel
      → p.index channel ≡ some idx
      → get_elem? p.poll_fds idx ≡ some pfd
      → is_none_event events ≡ true
      → (is_muted pfd.fd (fd_of channel) && same_events pfd.events events ≡ true
          → (p' : PollPoller) × (remove_channel fd_of channel events p ≡ some p')
            × IsRegistered fd_of p'
            × (length p'.poll_fds + 1 ≡ length p.poll_fds)
            × ((fd : ℕ) → p'.channels fd ≡ (if fd == fd_of channel then none else p.channels fd))
            × ((events' : Interest) → update_channel fd_of channel events' p' ≡ none))
        × (is_muted pfd.fd (fd_of channel) ≡ false → remove_channel fd_of channel events p ≡ none)
  unfolding remove_channel remove_entry move_back update_channel
  remove_channel_keeps channel idx events pfd p r m at found idle = (
    λ muted.
        let size = get_elem?-lt p.poll_fds idx pfd found in
        elim (Bool-cases (suc idx == length p.poll_fds)) [
          | inl last ↦ (
            record (erased channel p) { poll_fds = cut_last p.poll_fds },
            ground (arith, muted),
            remove_last channel idx p r m at (ground arith),
            omega (arith, length-take (length p.poll_fds - 1) p.poll_fds),
            λ fd. refl,
            λ events'. ground arith,
          )
          | inr inside ↦
              let (back, e) = get_elem?-some p.poll_fds (length p.poll_fds - 1) (omega arith) in
              let (moved, mb, ab) = r.held (length p.poll_fds - 1) back e in
              let other =
                apart channel idx p r m at (length p.poll_fds - 1) back e (ground arith) in
              (
                record (erased channel p) {
                  index = put_at moved (some idx) p.index;
                  poll_fds = cut_last (set p.poll_fds idx back);
                },
                ground (arith, muted, other, mb),
                remove_inside channel idx moved back p r m at (ground arith) e mb ab,
                omega (
                  arith,
                  length-set p.poll_fds idx back,
                  length-take (length (set p.poll_fds idx back) - 1) (set p.poll_fds idx back),
                ),
                λ fd. refl,
                λ events'. ground arith,
              )
        ],
    λ loud. ground (arith, loud),
  )
