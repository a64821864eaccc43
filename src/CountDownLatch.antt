-- ===== src/CountDownLatch.antt =====
-- base/count_down_latch.h and count_down_latch.cc: the latch, as steps of the threads under its lock. A
-- thread is a number. The counter is an int that goes below 0 when it is counted down too often.
mod Tests
use ryan_network_library.Prelude.{
  ℕ, zero, suc, ◌+◌, ◌-◌, ◌≤◌, ◌<◌, ◌≡◌, refl, Bool, true, false, List, [], ◌∷◌, ◌++◌, arith,
  length, length-append, if◌then◌else◌, ℤ, pos, negsuc,
}

-- `waiting` are the threads in `cv_.wait`, and `passed` those that came out of `Wait`.
pub record CountDownLatch : Type 0 where
  pub count_ : ℤ
  pub waiting : List ℕ
  pub passed : List ℕ

unfoldable pub new_latch : ℕ → CountDownLatch
new_latch count = record { count_ = pos count; waiting = []; passed = [] }

abbrev pred : ℤ → ℤ
pred (pos zero) = negsuc zero
pred (pos (suc n)) = pos n
pred (negsuc n) = negsuc (suc n)

abbrev is_positive : ℤ → Bool
is_positive (pos zero) = false
is_positive (pos (suc n)) = true
is_positive (negsuc n) = false

abbrev is_zero : ℤ → Bool
is_zero (pos zero) = true
is_zero (pos (suc n)) = false
is_zero (negsuc n) = false

-- `Wait`. A thread that wakes before it is notified finds the counter positive still and waits on: such a
-- wake-up is no step.
unfoldable pub wait : ℕ → CountDownLatch → CountDownLatch
wait thread l =
    if is_positive l.count_
    then record l { waiting = thread ∷ l.waiting }
    else record l { passed = thread ∷ l.passed }

-- `CountDown`. The threads that are notified find the counter at 0.
unfoldable pub count_down : CountDownLatch → CountDownLatch
count_down l =
    if is_zero (pred l.count_)
    then record { count_ = pred l.count_; waiting = []; passed = l.waiting ++ l.passed }
    else record l { count_ = pred l.count_ }

pub data Event : Type 0 where
  waits : ℕ → Event
  counts_down : Event

unfoldable pub run : List Event → CountDownLatch → CountDownLatch
unfolding wait count_down
run [] l = l
run (waits thread ∷ es) l = run es (wait thread l)
run (counts_down ∷ es) l = run es (count_down l)

abbrev pub downs : List Event → ℕ
downs [] = 0
downs (waits thread ∷ es) = downs es
downs (counts_down ∷ es) = suc (downs es)

abbrev pub comings : List Event → ℕ
comings [] = 0
comings (waits thread ∷ es) = suc (comings es)
comings (counts_down ∷ es) = comings es

-- The counter of a latch of `n` after it was counted down `d` times.
abbrev IsCounted : ℕ → ℕ → ℤ → Type 0
IsCounted n d (pos c) = c + d ≡ n
IsCounted n d (negsuc c) = suc (n + c) ≡ d

record IsLatch (n d w : ℕ) (l : CountDownLatch) : Type 0 where
  count : IsCounted n d l.count_
  shut : d < n → l.passed ≡ []
  opened : n ≤ d → l.waiting ≡ []
  all : length l.waiting + length l.passed ≡ w

wait-IsLatch :
    (n d w thread : ℕ) (l : CountDownLatch) → IsLatch n d w l → IsLatch n d (w + 1) (wait thread l)
unfolding wait
wait-IsLatch n d w thread l v = go l.count_ refl v.count
  where
    go : (z : ℤ) → l.count_ ≡ z → IsCounted n d z → IsLatch n d (w + 1) (wait thread l)
    go (pos zero) e k = rw e (record {
      count = rw e at v.count;
      shut = λ h. absurd (omega arith);
      opened = v.opened;
      all = omega (arith, v.all);
    })
    go (pos (suc c)) e k = rw e (record {
      count = rw e at v.count;
      shut = v.shut;
      opened = λ h. absurd (omega arith);
      all = omega (arith, v.all);
    })
    go (negsuc c) e k = rw e (record {
      count = rw e at v.count;
      shut = λ h. absurd (omega arith);
      opened = v.opened;
      all = omega (arith, v.all);
    })

count_down-IsLatch :
    (n d w : ℕ) (l : CountDownLatch) → IsLatch n d w l → IsLatch n (d + 1) w (count_down l)
unfolding count_down
count_down-IsLatch n d w l v = go l.count_ refl v.count
  where
    go : (z : ℤ) → l.count_ ≡ z → IsCounted n d z → IsLatch n (d + 1) w (count_down l)
    go (pos zero) e k = rw e (record {
      count = omega arith;
      shut = λ h. absurd (omega arith);
      opened = λ h. v.opened (omega arith);
      all = v.all;
    })
    go (pos (suc zero)) e k = rw e (record {
      count = omega arith;
      shut = λ h. absurd (omega arith);
      opened = λ h. refl;
      all = omega (arith, v.all, length-append l.waiting l.passed);
    })
    go (pos (suc (suc c))) e k = rw e (record {
      count = omega arith;
      shut = λ h. v.shut (omega arith);
      opened = λ h. absurd (omega arith);
      all = v.all;
    })
    go (negsuc c) e k = rw e (record {
      count = omega arith;
      shut = λ h. absurd (omega arith);
      opened = λ h. v.opened (omega arith);
      all = v.all;
    })

run-IsLatch :
    (es : List Event) (n d w : ℕ) (l : CountDownLatch)
    → IsLatch n d w l
    → IsLatch n (d + downs es) (w + comings es) (run es l)
unfolding run
run-IsLatch [] n d w l v =
    let e : d + 0 ≡ d = omega arith in let f : w + 0 ≡ w = omega arith in rw (e, f) v
run-IsLatch (waits thread ∷ es) n d w l v =
    let e : w + suc (comings es) ≡ w + 1 + comings es = omega arith in
    rw e (run-IsLatch es n d (w + 1) (wait thread l) (wait-IsLatch n d w thread l v))
run-IsLatch (counts_down ∷ es) n d w l v =
    let e : d + suc (downs es) ≡ d + 1 + downs es = omega arith in
    rw e (run-IsLatch es n (d + 1) w (count_down l) (count_down-IsLatch n d w l v))

-- Threads that come to wait and count a new latch down, in any order: while it was counted down less
-- often than its number, no thread has passed; as soon as it was counted down that often, and however
-- often after, none waits; and every thread that came waits or has passed.
pub run_lem :
    (n : ℕ) (es : List Event)
    → (downs es < n → (run es (new_latch n)).passed ≡ [])
      × (n ≤ downs es → (run es (new_latch n)).waiting ≡ [])
      × (length (run es (new_latch n)).waiting + length (run es (new_latch n)).passed ≡ comings es)
unfolding new_latch
run_lem n es =
    let start : IsLatch n 0 0 (new_latch n) = record {
      count = omega arith;
      shut = λ h. refl;
      opened = λ h. refl;
      all = refl;
    } in
    let v = run-IsLatch es n 0 0 (new_latch n) start in
    (λ h. v.shut (omega arith), λ h. v.opened (omega arith), omega (arith, v.all))
