-- ===== src/TimerQueue/Memory.antt =====
-- No timer is lost and none is deleted twice: what timer/timer_queue.cc does with the timers' memory.
use ryan_network_library.Prelude.{
  ℕ, ◌+◌, ◌≤◌, ◌≡◌, refl, sym, ap, ◌∙◌, inl, inr, true, false, Option, none, some, List, [], ◌∷◌,
  ◌++◌, arith, ◌==◌, if◌then◌else◌, Bool-cases, times, times-append,
}
use ryan_network_library.TimerQueue.{
  Entry, before, TimerQueue, insert_entry, insert, add_timer_in_loop, add_all, get_expired, run_all,
  reset_to_first, restart_or_free, reset, handle_read, end_queue, timers_of,
}
use ryan_network_library.TimerQueue.Order.{IsSorted, AllAddresses, split_before_lem}
use ryan_network_library.TimerQueue.Adding.{entries_of, added, add_timers, add_keeps}
use ryan_network_library.TimerQueue.Expiry.{reset_to_first_lem}

-- How often a timer is in the set or was deleted.
abbrev pub held : ℕ → TimerQueue → ℕ
held t q = times t (timers_of q.timers) + times t q.freed

insert_entry-times :
    (e : Entry) (xs : List Entry) (t : ℕ)
    → times e.timer (timers_of xs) ≡ 0
    → times t (timers_of (insert_entry e xs))
      ≡ (if e.timer == t then 1 else 0) + times t (timers_of xs)
unfolding insert_entry
insert_entry-times e [] t fresh = refl
insert_entry-times e (x ∷ xs) t fresh = elim (Bool-cases (before e x)) [
  | inl earlier ↦ rw earlier refl
  | inr late ↦ elim (Bool-cases (before x e)) [
    | inl later ↦
        let ih = insert_entry-times e xs t (ground arith) in rw (late, later) (omega (arith, ih))
    | inr same ↦ absurd (ground arith)
  ]
]

restart_or_free-held :
    (o : Option ℕ) (timer : ℕ) (q : TimerQueue) (t : ℕ)
    → times timer (timers_of q.timers) ≡ 0
    → held t (restart_or_free o timer q) ≡ (if timer == t then 1 else 0) + held t q
unfolding restart_or_free insert
restart_or_free-held (some when) timer q t fresh =
    let n = insert_entry-times (record { when = when; timer = timer }) q.timers t fresh in
    omega (arith, n)
restart_or_free-held none timer q t fresh = omega (arith, times-append t q.freed (timer ∷ []))

restart_or_free-timers :
    (o : Option ℕ) (timer : ℕ) (q : TimerQueue) (t : ℕ)
    → times timer (timers_of q.timers) ≡ 0
    → times t (timers_of (restart_or_free o timer q).timers)
      ≤ (if timer == t then 1 else 0) + times t (timers_of q.timers)
unfolding restart_or_free insert
restart_or_free-timers (some when) timer q t fresh =
    omega (arith, insert_entry-times (record { when = when; timer = timer }) q.timers t fresh)
restart_or_free-timers none timer q t fresh = omega arith

-- `Reset` puts back or deletes each of the expired timers.
reset-held :
    (restart : ℕ → Option ℕ) (now : ℕ → ℕ) (es : List Entry) (q : TimerQueue)
    → ((t : ℕ) → times t (timers_of es) + times t (timers_of q.timers) ≤ 1)
    → (t : ℕ) → held t (reset restart now es q) ≡ times t (timers_of es) + held t q
unfolding reset
reset-held restart now [] q apart t = omega arith
reset-held restart now (e ∷ es) q apart t =
    let q1 = restart_or_free (restart e.timer) e.timer q in
    let f = reset_to_first_lem (now e.timer) q1 in
    let self : (e.timer == e.timer) ≡ true = ground arith in
    let fresh : times e.timer (timers_of q.timers) ≡ 0 = ground (arith, apart e.timer, self) in
    let ih =
      reset-held restart now es (reset_to_first (now e.timer) q1)
        (λ x.
          rw f.1
            (omega (arith, apart x, restart_or_free-timers (restart e.timer) e.timer q x fresh)))
        t in
    let here : held t (reset_to_first (now e.timer) q1) ≡ held t q1 = rw (f.1, f.2) refl in
    omega (arith, ih, here, restart_or_free-held (restart e.timer) e.timer q t fresh)

add_all-held :
    (es : List (ℕ × Entry)) (q : TimerQueue)
    → ((t : ℕ) → times t (timers_of (entries_of es)) + times t (timers_of q.timers) ≤ 1)
    → (t : ℕ)
    → (times t (timers_of (add_all es q).timers)
        ≡ times t (timers_of (entries_of es)) + times t (timers_of q.timers))
      × ((add_all es q).freed ≡ q.freed)
unfolding add_all
add_all-held [] q apart t = (omega arith, refl)
add_all-held ((now, e) ∷ es) q apart t =
    let q1 = add_timer_in_loop now e q in
    let self : (e.timer == e.timer) ≡ true = ground arith in
    let fresh : times e.timer (timers_of q.timers) ≡ 0 = ground (arith, apart e.timer, self) in
    let n : (x : ℕ)
        → times x (timers_of q1.timers)
          ≡ (if e.timer == x then 1 else 0) + times x (timers_of q.timers) =
      λ x. rw (add_timers now e q) (insert_entry-times e q.timers x fresh) in
    let (k, f) = add_all-held es q1 (λ x. omega (arith, apart x, n x)) t in
    (omega (arith, k, n t), f ∙ (add_keeps now e q).0)

timers_of-append : (xs ys : List Entry) → timers_of (xs ++ ys) ≡ timers_of xs ++ timers_of ys
timers_of-append [] ys = refl
timers_of-append (x ∷ xs) ys = ap (λ l. x.timer ∷ l) (timers_of-append xs ys)

run_all-held :
    (adds : ℕ → List (ℕ × Entry)) (es : List Entry) (q : TimerQueue)
    → ((t : ℕ) → times t (timers_of (added adds es)) + times t (timers_of q.timers) ≤ 1)
    → (t : ℕ)
    → (times t (timers_of (run_all adds es q).timers)
        ≡ times t (timers_of (added adds es)) + times t (timers_of q.timers))
      × ((run_all adds es q).freed ≡ q.freed)
unfolding run_all
run_all-held adds [] q apart t = (omega arith, refl)
run_all-held adds (e ∷ es) q apart t =
    let q1 = record q { ran = q.ran ++ (e.timer ∷ []) } in
    let cut : (x : ℕ)
        → times x (timers_of (added adds (e ∷ es)))
          ≡ times x (timers_of (entries_of (adds e.timer))) + times x (timers_of (added adds es)) =
      λ x.
        rw (timers_of-append (entries_of (adds e.timer)) (added adds es))
          (times-append x (timers_of (entries_of (adds e.timer))) (timers_of (added adds es))) in
    let here = add_all-held (adds e.timer) q1 (λ x. omega (arith, apart x, cut x)) in
    let (k, f) =
      run_all-held adds es (add_all (adds e.timer) q1)
        (λ x. omega (arith, apart x, cut x, (here x).0)) t in
    (omega (arith, k, cut t, (here t).0), f ∙ (here t).1)

-- A whole expiry from a sorted set, with addresses below the sentry's, in which the timers that the
-- callbacks add are not at the addresses of one another or of timers of the set: every timer that was
-- in the set, had been deleted or was added is then in the set or deleted, once. And the destructor
-- deletes the timers of the set.
pub handle_read-held :
    (adds : ℕ → List (ℕ × Entry)) (restart : ℕ → Option ℕ) (now : ℕ) (later : ℕ → ℕ)
    (q : TimerQueue)
    → IsSorted q.timers
    → AllAddresses q.timers
    → ((t : ℕ)
        → times t (timers_of (added adds (get_expired now q).0)) + times t (timers_of q.timers) ≤ 1)
    → (t : ℕ)
    → (held t (handle_read adds restart now later q)
        ≡ times t (timers_of (added adds (get_expired now q).0)) + held t q)
      × (times t (end_queue (handle_read adds restart now later q)).freed
          ≡ held t (handle_read adds restart now later q))
unfolding handle_read get_expired end_queue
handle_read-held adds restart now later q s a apart t =
    let (whole, _, _, _) = split_before_lem now q.timers s a in
    let expired = (get_expired now q).0 in
    let q1 : TimerQueue = record q {
      timers = (get_expired now q).1.timers;
      calling_expired_timers = true;
    } in
    let cut : (x : ℕ)
        → times x (timers_of q.timers)
          ≡ times x (timers_of expired) + times x (timers_of q1.timers) =
      λ x.
        ap (λ l. times x (timers_of l)) (sym whole)
        ∙ rw (timers_of-append expired q1.timers)
            (times-append x (timers_of expired) (timers_of q1.timers)) in
    let ran = run_all-held adds expired q1 (λ x. omega (arith, apart x, cut x)) in
    let q2 : TimerQueue = record (run_all adds expired q1) { calling_expired_timers = false } in
    let back =
      reset-held restart later expired q2 (λ x. omega (arith, apart x, cut x, (ran x).0)) t in
    let deleted : times t q2.freed ≡ times t q.freed = ap (times t) (ran t).1 in
    let q3 = reset restart later expired q2 in
    (
      omega (arith, back, cut t, (ran t).0, deleted),
      omega (arith, times-append t q3.freed (timers_of q3.timers)),
    )
