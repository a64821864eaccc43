-- ===== src/TimerQueue/Adding.antt =====
-- Timers that are added, from outside and by the callbacks of an expiry.
use ryan_network_library.Prelude.{
  ℕ, ◌+◌, ◌-◌, ◌≤◌, ◌≡◌, refl, sym, ◌∙◌, inl, inr, Bool, true, false, ◌||◌, Option, some, List, [],
  ◌∷◌, ◌++◌, append_assoc, append-nil, arith, ltb, if◌then◌else◌, Bool-cases,
}
use ryan_network_library.TimerQueue.{timers_of}
use ryan_network_library.TimerQueue.{
  Entry, before, TimerQueue, insert_entry, insert, reset_timerfd, add_timer_in_loop, add_all,
  run_all,
}
use ryan_network_library.TimerQueue.Order.{
  IsSorted, has, same_entry, AllPending, first-le, insert_entry-IsSorted, has-insert_entry,
}

abbrev pub Armed : ℕ → ℕ → List Entry → Option (ℕ × ℕ) → Type 0
Armed from until [] timerfd = Unit {0}
Armed from until (e ∷ es) timerfd =
    (set_at : ℕ) × (delay : ℕ) × (timerfd ≡ some (set_at, delay))
    × (from ≤ set_at)
    × (set_at ≤ until)
    × (set_at + delay ≡ (if ltb e.when (set_at + 100) then set_at + 100 else e.when))

-- With timers, the descriptor was set at a reading of the clock in this range, and it becomes readable
-- at the first timer's time, or 100 microseconds behind that reading if this is later.
abbrev pub IsArmed : ℕ → ℕ → TimerQueue → Type 0
IsArmed from until q = Armed from until q.timers q.timerfd

pub add_timers :
    (now : ℕ) (e : Entry) (q : TimerQueue)
    → (add_timer_in_loop now e q).timers ≡ insert_entry e q.timers
unfolding add_timer_in_loop insert reset_timerfd
add_timers now e q = ground arith

abbrev delay_of : ℕ → Entry → ℕ
delay_of now e = if ltb e.when (now + 100) then 100 else e.when - now

add-Armed :
    (from until now : ℕ) (e : Entry) (l : List Entry) (c : Bool) (t : Option (ℕ × ℕ)) (r f : List ℕ)
    → from ≤ now
    → now ≤ until
    → Armed from until l t
    → IsArmed from until (
        add_timer_in_loop now e
          (record { timers = l; calling_expired_timers = c; timerfd = t; ran = r; freed = f }))
unfolding add_timer_in_loop insert reset_timerfd insert_entry
add-Armed from until now e [] c t r f lo hi a = (now, delay_of now e, refl, lo, hi, ground arith)
add-Armed from until now e (x ∷ xs) c t r f lo hi a = elim (Bool-cases (before e x)) [
  | inl earlier ↦ elim (Bool-cases (ltb e.when x.when)) [
    | inl sooner ↦ rw sooner (now, delay_of now e, refl, lo, hi, ground arith)
    | inr same ↦
        let eq : x.when ≡ e.when = ground arith in
        rw (earlier, same) (a.0, a.1, a.2, a.3, a.4, a.5 ∙ rw eq refl)
  ]
  | inr late ↦
      let not_sooner : ltb e.when x.when ≡ false = ground arith in
      elim (Bool-cases (before x e)) [
        | inl later ↦ rw (late, later, not_sooner) a
        | inr same ↦ rw (late, same, not_sooner) a
      ]
]

-- A timer that is sooner than all others sets the descriptor.
sets_timerfd :
    (now : ℕ) (e : Entry) (l : List Entry) (c : Bool) (t : Option (ℕ × ℕ)) (r f : List ℕ)
    → AllPending e.when l
    → IsArmed now now (
        add_timer_in_loop now e
          (record { timers = l; calling_expired_timers = c; timerfd = t; ran = r; freed = f }))
unfolding add_timer_in_loop insert reset_timerfd insert_entry
sets_timerfd now e [] c t r f p =
    (now, delay_of now e, refl, omega arith, omega arith, ground arith)
sets_timerfd now e (x ∷ xs) c t r f p =
    let sooner : ltb e.when x.when ≡ true = ground (arith, p.0) in
    rw sooner (now, delay_of now e, refl, omega arith, omega arith, ground arith)

-- With a timer that is not later, it does not.
leaves_timerfd :
    (now : ℕ) (e y : Entry) (l : List Entry) (c : Bool) (t : Option (ℕ × ℕ)) (r f : List ℕ)
    → IsSorted l
    → has y l ≡ true
    → y.when ≤ e.when
    → (add_timer_in_loop now e (record {
      timers = l;
      calling_expired_timers = c;
      timerfd = t;
      ran = r;
      freed = f;
    })).timerfd
      ≡ t
unfolding add_timer_in_loop insert reset_timerfd insert_entry
leaves_timerfd now e y [] c t r f s h le = absurd (ground arith)
leaves_timerfd now e y (x ∷ xs) c t r f s h le =
    let first = first-le x y xs s h in
    let late : ltb e.when x.when ≡ false = ground (arith, first) in rw late refl

-- A timer that is added to a sorted set at a reading of the clock in the range: if the descriptor was
-- set for the first timer's time at a reading in the range, it is so again; it is set anew, at this
-- reading, if all other timers are later, and left as it was if one is not. The timer is in the set
-- beside the others, and the set stays sorted.
pub add_timer_in_loop_lem :
    (from until now : ℕ) (e : Entry) (q : TimerQueue)
    → IsSorted q.timers
    → from ≤ now
    → now ≤ until
    → IsArmed from until q
    → IsSorted (add_timer_in_loop now e q).timers
      × IsArmed from until (add_timer_in_loop now e q)
      × (AllPending e.when q.timers → IsArmed now now (add_timer_in_loop now e q))
      × ((y : Entry)
          → has y q.timers ≡ true
          → y.when ≤ e.when
          → (add_timer_in_loop now e q).timerfd ≡ q.timerfd)
      × ((y : Entry) → has y (add_timer_in_loop now e q).timers ≡ same_entry y e || has y q.timers)
unfolding add_timer_in_loop insert
add_timer_in_loop_lem from until now e q s lo hi a = (
  rw (add_timers now e q) (insert_entry-IsSorted e q.timers s),
  add-Armed from until now e q.timers q.calling_expired_timers q.timerfd q.ran q.freed lo hi a,
  λ later. sets_timerfd now e q.timers q.calling_expired_timers q.timerfd q.ran q.freed later,
  λ y h le. leaves_timerfd now e y q.timers q.calling_expired_timers q.timerfd q.ran q.freed s h le,
  λ y. rw (add_timers now e q) (has-insert_entry y e q.timers),
)

pub has-append : (y : Entry) (xs ys : List Entry) → has y (xs ++ ys) ≡ has y xs || has y ys
has-append y [] ys = refl
has-append y (x ∷ xs) ys = ground (arith, has-append y xs ys)

-- The entries that the callbacks add.
abbrev pub entries_of : List (ℕ × Entry) → List Entry
entries_of [] = []
entries_of ((now, e) ∷ es) = e ∷ entries_of es

abbrev pub added : (ℕ → List (ℕ × Entry)) → List Entry → List Entry
added adds [] = []
added adds (e ∷ es) = entries_of (adds e.timer) ++ added adds es

-- What new timers did to the queue.
record Grown (new_ones : List Entry) (q q' : TimerQueue) : Type 0 where
  pub sorted : IsSorted q'.timers
  pub holds : (y : Entry) → has y q'.timers ≡ has y new_ones || has y q.timers
  pub frees : q'.freed ≡ q.freed
  pub runs : q'.ran ≡ q.ran
  pub calls : q'.calling_expired_timers ≡ q.calling_expired_timers

pub add_keeps :
    (now : ℕ) (e : Entry) (q : TimerQueue)
    → ((add_timer_in_loop now e q).freed ≡ q.freed)
      × ((add_timer_in_loop now e q).ran ≡ q.ran)
      × ((add_timer_in_loop now e q).calling_expired_timers ≡ q.calling_expired_timers)
unfolding add_timer_in_loop insert reset_timerfd
add_keeps now e q = (ground arith, ground arith, ground arith)

add_all_lem :
    (es : List (ℕ × Entry)) (q : TimerQueue)
    → IsSorted q.timers
    → Grown (entries_of es) q (add_all es q)
unfolding add_all
add_all_lem [] q s = record {
  sorted = s;
  holds = λ y. refl;
  frees = refl;
  runs = refl;
  calls = refl;
}
add_all_lem ((now, e) ∷ es) q s =
    let q1 = add_timer_in_loop now e q in
    let here = add_timers now e q in
    let kept = add_keeps now e q in
    let s1 : IsSorted q1.timers = rw here (insert_entry-IsSorted e q.timers s) in
    let g = add_all_lem es q1 s1 in
    record {
      sorted = g.sorted;
      holds = λ y. g.holds y ∙ rw (here, has-insert_entry y e q.timers) (ground arith);
      frees = g.frees ∙ kept.0;
      runs = g.runs ∙ kept.1;
      calls = g.calls ∙ kept.2;
    }

-- What the callbacks did to the queue.
pub record Ran (adds : ℕ → List (ℕ × Entry)) (es : List Entry) (q q' : TimerQueue) : Type 0 where
  pub sorted : IsSorted q'.timers
  pub holds : (y : Entry) → has y q'.timers ≡ has y (added adds es) || has y q.timers
  pub frees : q'.freed ≡ q.freed
  pub runs : q'.ran ≡ q.ran ++ timers_of es

pub run_all_lem :
    (adds : ℕ → List (ℕ × Entry)) (es : List Entry) (q : TimerQueue)
    → IsSorted q.timers
    → Ran adds es q (run_all adds es q)
unfolding run_all
run_all_lem adds [] q s = record {
  sorted = s;
  holds = λ y. refl;
  frees = refl;
  runs = sym (append-nil q.ran);
}
run_all_lem adds (e ∷ es) q s =
    let q1 = record q { ran = q.ran ++ (e.timer ∷ []) } in
    let g = add_all_lem (adds e.timer) q1 s in
    let r = run_all_lem adds es (add_all (adds e.timer) q1) g.sorted in
    record {
      sorted = r.sorted;
      holds = λ y.
          r.holds y
          ∙ rw (g.holds y)
              (ground (arith, has-append y (entries_of (adds e.timer)) (added adds es)));
      frees = r.frees ∙ g.frees;
      runs = r.runs ∙ rw g.runs (append_assoc q.ran (e.timer ∷ []) (timers_of es));
    }

-- No expired timer: no callback.
pub quiet :
    (adds : ℕ → List (ℕ × Entry)) (es : List Entry) (q : TimerQueue)
    → es ≡ []
    → run_all adds es q ≡ q
unfolding run_all
quiet adds [] q e = refl
quiet adds (x ∷ es) q e = absurd cc
