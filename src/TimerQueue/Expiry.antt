-- ===== src/TimerQueue/Expiry.antt =====
-- What an expiry does: the timers that run, that are freed and that are put back, and the time for
-- which the descriptor is set.
use ryan_network_library.Prelude.{
  ℕ, ◌+◌, ◌-◌, ◌≤◌, ltb, if◌then◌else◌, ◌≡◌, refl, sym, ap, ◌∙◌, subst, ◌⊎◌, inl, inr, Bool, true,
  false, ◌||◌, Option, none, some, List, [], ◌∷◌, ◌++◌, append_assoc, append-nil, arith, set,
}
use ryan_network_library.TimerQueue.{timers_of}
use ryan_network_library.TimerQueue.{
  Entry, TimerQueue, insert, reset_timerfd, get_expired, run_all, reset_to_first, restart_or_free,
  reset, handle_read,
}
use ryan_network_library.TimerQueue.Order.{
  IsSorted, has, AllAddresses, AllExpired, AllPending, insert_entry-IsSorted, has-insert_entry,
  split_before_lem, due, not_due, due_cut,
}
use ryan_network_library.TimerQueue.Adding.{Armed, IsArmed, has-append, added, run_all_lem, quiet}

-- A timer's new entry, and whether it is freed.
abbrev pub next_entry : Option ℕ → ℕ → List Entry
next_entry none timer = []
next_entry (some when) timer = record { when = when; timer = timer } ∷ []

abbrev pub gone : Option ℕ → ℕ → List ℕ
gone none timer = timer ∷ []
gone (some when) timer = []

-- The timers that do not repeat.
abbrev pub once_only : (ℕ → Option ℕ) → List Entry → List ℕ
once_only restart [] = []
once_only restart (e ∷ es) = gone (restart e.timer) e.timer ++ once_only restart es

-- The entries of the timers that repeat, at their next times.
abbrev pub restarted : (ℕ → Option ℕ) → List Entry → List Entry
restarted restart [] = []
restarted restart (e ∷ es) = next_entry (restart e.timer) e.timer ++ restarted restart es

-- An expiry from a sorted set, with addresses below the sentry's, takes out exactly the timers whose
-- time has come: what it takes and what it leaves make up the set, in order, and what it leaves is
-- sorted.
pub get_expired_lem :
    (now : ℕ) (q : TimerQueue)
    → IsSorted q.timers
    → AllAddresses q.timers
    → let (expired, q') = get_expired now q in
      (expired ++ q'.timers ≡ q.timers)
      × AllExpired now expired
      × AllPending now q'.timers
      × IsSorted q'.timers
unfolding get_expired
get_expired_lem now q s a = split_before_lem now q.timers s a

reset_to_first-IsArmed :
    (now : ℕ) (l : List Entry) (c : Bool) (t : Option (ℕ × ℕ)) (r f : List ℕ)
    → let q : TimerQueue = record {
      timers = l;
      calling_expired_timers = c;
      timerfd = t;
      ran = r;
      freed = f;
    } in
      IsArmed now now (reset_to_first now q)
      × ((reset_to_first now q).timers ≡ l)
      × ((reset_to_first now q).freed ≡ f)
      × ((reset_to_first now q).ran ≡ r)
      × ((reset_to_first now q).calling_expired_timers ≡ c)
unfolding reset_to_first reset_timerfd
reset_to_first-IsArmed now [] c t r f = (tt, refl, refl, refl, refl)
reset_to_first-IsArmed now (e ∷ es) c t r f = (
  (
    now,
    if ltb e.when (now + 100) then 100 else e.when - now,
    refl,
    omega arith,
    omega arith,
    ground arith,
  ),
  refl,
  refl,
  refl,
  refl,
)

restart_or_free_lem :
    (o : Option ℕ) (timer : ℕ) (q : TimerQueue)
    → IsSorted q.timers
    → IsSorted (restart_or_free o timer q).timers
      × ((y : Entry)
          → has y (restart_or_free o timer q).timers ≡ has y (next_entry o timer) || has y q.timers)
      × ((restart_or_free o timer q).freed ≡ q.freed ++ gone o timer)
      × ((restart_or_free o timer q).ran ≡ q.ran)
      × ((restart_or_free o timer q).calling_expired_timers ≡ q.calling_expired_timers)
unfolding restart_or_free insert
restart_or_free_lem none timer q s = (s, λ y. refl, refl, refl, refl)
restart_or_free_lem (some when) timer q s =
    let e : Entry = record { when = when; timer = timer } in
    (
      insert_entry-IsSorted e q.timers s,
      λ y. rw (has-insert_entry y e q.timers) (ground arith),
      sym (append-nil q.freed),
      refl,
      refl,
    )

pub reset_to_first_lem :
    (now : ℕ) (q : TimerQueue)
    → IsArmed now now (reset_to_first now q)
      × ((reset_to_first now q).timers ≡ q.timers)
      × ((reset_to_first now q).freed ≡ q.freed)
      × ((reset_to_first now q).ran ≡ q.ran)
      × ((reset_to_first now q).calling_expired_timers ≡ q.calling_expired_timers)
reset_to_first_lem now q =
    reset_to_first-IsArmed now q.timers q.calling_expired_timers q.timerfd q.ran q.freed

widen :
    (now from until : ℕ) (l : List Entry) (t : Option (ℕ × ℕ))
    → from ≤ now
    → now ≤ until
    → Armed now now l t
    → Armed from until l t
widen now from until [] t lo hi a = tt
widen now from until (e ∷ es) t lo hi (s, d, q, l, h, k) = (s, d, q, omega arith, omega arith, k)

-- What `Reset` did to the queue, with readings of the clock in this range.
record Reset (from until : ℕ) (restart : ℕ → Option ℕ) (expired : List Entry) (q q' : TimerQueue)
    : Type 0 where
  pub sorted : IsSorted q'.timers
  pub armed : IsArmed from until q → IsArmed from until q'
  pub rearmed : ((expired ≡ []) × (q' ≡ q)) ⊎ IsArmed from until q'
  pub holds : (y : Entry) → has y q'.timers ≡ has y (restarted restart expired) || has y q.timers
  pub frees : q'.freed ≡ q.freed ++ once_only restart expired
  pub runs : q'.ran ≡ q.ran
  pub calls : q'.calling_expired_timers ≡ q.calling_expired_timers

reset_lem :
    (from until : ℕ) (restart : ℕ → Option ℕ) (now : ℕ → ℕ) (expired : List Entry) (q : TimerQueue)
    → ((t : ℕ) → (from ≤ now t) × (now t ≤ until))
    → IsSorted q.timers
    → Reset from until restart expired q (reset restart now expired q)
unfolding reset
reset_lem from until restart now [] q clock s = record {
  sorted = s;
  armed = λ a. a;
  rearmed = inl (refl, refl);
  holds = λ y. refl;
  frees = sym (append-nil q.freed);
  runs = refl;
  calls = refl;
}
reset_lem from until restart now (e ∷ es) q clock s =
    let o = restart_or_free_lem (restart e.timer) e.timer q s in
    let f = reset_to_first_lem (now e.timer) (restart_or_free (restart e.timer) e.timer q) in
    let r =
      reset_lem from until restart now es
        (reset_to_first (now e.timer) (restart_or_free (restart e.timer) e.timer q)) clock
        (subst IsSorted (sym f.1) o.0) in
    let q1 = reset_to_first (now e.timer) (restart_or_free (restart e.timer) e.timer q) in
    let set : IsArmed from until q1 =
      widen (now e.timer) from until q1.timers q1.timerfd (clock e.timer).0 (clock e.timer).1 f.0 in
    record {
      sorted = r.sorted;
      armed = λ a. r.armed set;
      rearmed = inr (r.armed set);
      holds = λ y.
          r.holds y
          ∙ rw (f.1, o.1 y)
              (ground (
                arith,
                has-append y (next_entry (restart e.timer) e.timer) (restarted restart es),
              ));
      frees =
          r.frees
          ∙ rw (f.2, o.2)
              (append_assoc q.freed (gone (restart e.timer) e.timer) (once_only restart es));
      runs = r.runs ∙ f.3 ∙ o.3;
      calls = r.calls ∙ f.4 ∙ o.4;
    }

-- A whole expiry from a sorted set, with addresses below the sentry's, whatever timers the callbacks
-- add, with the readings of the clock in `Reset` in a range that begins at the expiry's time: exactly
-- the timers whose time had come run, in order; those that do not repeat are freed, in order; the set is
-- sorted again and holds the timers that were not due, the added ones and the repeating ones at their
-- next times. If no timer was due, the set and the descriptor are as they were; otherwise the
-- descriptor is set anew, at a reading in the range, for the first timer that is then in the set.
pub handle_read_lem :
    (adds : ℕ → List (ℕ × Entry)) (restart : ℕ → Option ℕ) (now until : ℕ) (later : ℕ → ℕ)
    (q : TimerQueue)
    → IsSorted q.timers
    → AllAddresses q.timers
    → ((t : ℕ) → (now ≤ later t) × (later t ≤ until))
    → let expired = due now q.timers in
      let q' = handle_read adds restart now later q in
      (q'.ran ≡ q.ran ++ timers_of expired)
      × (q'.freed ≡ q.freed ++ once_only restart expired)
      × IsSorted q'.timers
      × ((y : Entry)
          → has y q'.timers
            ≡ has y (restarted restart expired)
              || (has y (added adds expired) || has y (not_due now q.timers)))
      × (((expired ≡ []) × (q'.timers ≡ q.timers) × (q'.timerfd ≡ q.timerfd))
          ⊎ IsArmed now until q')
      × (q'.calling_expired_timers ≡ false)
unfolding handle_read get_expired
handle_read_lem adds restart now until later q s a clock =
    let (whole, early, late, sorted) = split_before_lem now q.timers s a in
    let expired = (get_expired now q).0 in
    let q1 : TimerQueue = record q {
      timers = (get_expired now q).1.timers;
      calling_expired_timers = true;
    } in
    let (d0, n0) = due_cut now expired q1.timers early late in
    let d : due now q.timers ≡ expired = ap (due now) (sym whole) ∙ d0 in
    let n : not_due now q.timers ≡ q1.timers = ap (not_due now) (sym whole) ∙ n0 in
    let ran = run_all_lem adds expired q1 sorted in
    let q2 : TimerQueue = record (run_all adds expired q1) { calling_expired_timers = false } in
    let r = reset_lem now until restart later expired q2 clock ran.sorted in
    rw (d, n)
      (
        r.runs ∙ ran.runs,
        r.frees ∙ rw ran.frees refl,
        r.sorted,
        λ y. r.holds y ∙ rw (ran.holds y) refl,
        elim r.rearmed [
          | inr set ↦ inr set
          | inl (e, same) ↦
              let still : q2.timers ≡ q.timers =
                ap (λ p. p.timers) (quiet adds expired q1 e)
                ∙ sym (ap (λ l. l ++ q1.timers) e)
                ∙ whole in
              let fd : q2.timerfd ≡ q.timerfd = ap (λ p. p.timerfd) (quiet adds expired q1 e) in
              inl (e, ap (λ p. p.timers) same ∙ still, ap (λ p. p.timerfd) same ∙ fd)
        ],
        r.calls,
      )
