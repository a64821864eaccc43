-- ===== src/EventLoopThreadPool.antt =====
-- net/event_loop_thread_pool.h and event_loop_thread_pool.cc: the loops of the threads and how
-- `GetNextLoop` goes round them. `StartLoop` is the system's thread and gives the loop's address: an
-- argument.
mod Tests
use ryan_network_library.Prelude.{
  ℕ, zero, suc, ◌+◌, ◌-◌, ◌<◌, ◌≡◌, refl, subst, ◌⊎◌, inl, inr, Bool, true, false, ◌&&◌, Option,
  some, List, [], ◌∷◌, ◌++◌, arith, length, get_elem?, take, drop, leb, ◌==◌, if◌then◌else◌, le→leb,
  lt→leb_false, Bool-cases, ◌>>=◌, ◌>>◌, drop_all,
}

pub record EventLoopThreadPool : Type 0 where
  pub base_loop : ℕ
  pub started : Bool
  pub num_threads : ℕ
  pub next : ℕ
  pub loops : List ℕ

unfoldable pub new_pool : ℕ → EventLoopThreadPool
new_pool base_loop = record {
  base_loop = base_loop;
  started = false;
  num_threads = 0;
  next = 0;
  loops = [];
}

unfoldable pub set_thread_num : ℕ → EventLoopThreadPool → EventLoopThreadPool
set_thread_num num_threads p = record p { num_threads = num_threads }

-- The loop of `Start`: thread `i` gives the loop `start_loop i`.
unfoldable pub start_threads : (ℕ → ℕ) → ℕ → ℕ → List ℕ
start_threads start_loop i zero = []
start_threads start_loop i (suc n) = start_loop i ∷ start_threads start_loop (suc i) n

-- `Start`, and the loops that the callback `cb` runs on in this thread.
unfoldable pub start : Bool → (ℕ → ℕ) → EventLoopThreadPool → List ℕ × EventLoopThreadPool
unfolding start_threads
start has_cb start_loop p = (
  if (p.num_threads == 0) && has_cb then p.base_loop ∷ [] else [],
  record p { started = true; loops = p.loops ++ start_threads start_loop 0 p.num_threads },
)

-- `GetNextLoop`; `none` is an index out of range.
unfoldable pub get_next_loop : EventLoopThreadPool → Option (ℕ × EventLoopThreadPool)
get_next_loop p = if length p.loops == 0 then some (p.base_loop, p) else (do
  loop ← get_elem? p.loops p.next
  some (loop, record p { next = if leb (length p.loops) (p.next + 1) then 0 else p.next + 1 }))

unfoldable pub get_all_loops : EventLoopThreadPool → List ℕ
get_all_loops p = if length p.loops == 0 then p.base_loop ∷ [] else p.loops

-- A number of calls of `GetNextLoop`, and what they give.
unfoldable pub take_loops : ℕ → EventLoopThreadPool → Option (List ℕ × EventLoopThreadPool)
unfolding get_next_loop
take_loops zero p = some ([], p)
take_loops (suc n) p = do
  (loop, p') ← get_next_loop p
  (rest, p'') ← take_loops n p'
  some (loop ∷ rest, p'')

abbrev pub IsValid : EventLoopThreadPool → Type 0
IsValid p = (length p.loops ≡ 0) ⊎ (p.next < length p.loops)

has_elem : (xs : List ℕ) (n : ℕ) → n < length xs → (x : ℕ) × (get_elem? xs n ≡ some x)
has_elem [] n h = absurd (omega arith)
has_elem (x ∷ xs) zero h = (x, refl)
has_elem (x ∷ xs) (suc n) h = has_elem xs n (omega arith)

abbrev at_next : ℕ → EventLoopThreadPool → EventLoopThreadPool
at_next n p = record p { next = n }

next_loop :
    (p : EventLoopThreadPool) (n x : ℕ)
    → get_elem? p.loops n ≡ some x
    → n < length p.loops
    → get_next_loop (at_next n p)
      ≡ some (x, at_next (if leb (length p.loops) (suc n) then 0 else suc n) p)
unfolding get_next_loop
next_loop p n x e h = let one : n + 1 ≡ suc n = omega arith in rw one (ground (arith, e))

drop-elem : (xs : List ℕ) (n x : ℕ) → get_elem? xs n ≡ some x → drop n xs ≡ x ∷ drop (suc n) xs
drop-elem [] n x e = absurd (ground arith)
drop-elem (y ∷ ys) zero x e = ground arith
drop-elem (y ∷ ys) (suc n) x e = drop-elem ys n x e

abbrev taken : ℕ → Option (List ℕ × EventLoopThreadPool) → Option (List ℕ × EventLoopThreadPool)
taken x o = do (rest, p) ← o; some (x ∷ rest, p)

take_one :
    (p : EventLoopThreadPool) (m n x : ℕ)
    → get_elem? p.loops n ≡ some x
    → n < length p.loops
    → take_loops (suc m) (at_next n p)
      ≡ taken x (take_loops m (at_next (if leb (length p.loops) (suc n) then 0 else suc n) p))
unfolding take_loops
take_one p m n x e h = rw (next_loop p n x e h) refl

-- Calls that do not reach the last loop.
walk :
    (p : EventLoopThreadPool) (m n k : ℕ)
    → n + m ≡ k
    → k < length p.loops
    → take_loops m (at_next n p) ≡ some (take m (drop n p.loops), at_next k p)
unfolding take_loops
walk p zero n k e h = let same : n ≡ k = omega arith in rw same refl
walk p (suc m) n k e h =
    let (x, f) = has_elem p.loops n (omega arith) in
    let inside : leb (length p.loops) (suc n) ≡ false =
      lt→leb_false (length p.loops) (suc n) (omega arith) in
    rw
      (
        take_one p m n x f (omega arith),
        inside,
        walk p m (suc n) k (omega arith) h,
        drop-elem p.loops n x f,
      )
      refl

-- Calls to the last loop, and `k` more.
around :
    (p : EventLoopThreadPool) (m n k : ℕ)
    → n + suc m ≡ length p.loops
    → k < length p.loops
    → take_loops (suc (m + k)) (at_next n p) ≡ some (drop n p.loops ++ take k p.loops, at_next k p)
around p zero n k h small =
    let (x, e) = has_elem p.loops n (omega arith) in
    let last : leb (length p.loops) (suc n) ≡ true =
      le→leb (length p.loops) (suc n) (omega arith) in
    let none_left : zero + k ≡ k = omega arith in
    rw
      (
        none_left,
        take_one p k n x e (omega arith),
        last,
        walk p k 0 k (omega arith) small,
        drop-elem p.loops n x e,
        drop_all (suc n) p.loops (omega arith),
      )
      refl
around p (suc m) n k h small =
    let (x, e) = has_elem p.loops n (omega arith) in
    let inside : leb (length p.loops) (suc n) ≡ false =
      lt→leb_false (length p.loops) (suc n) (omega arith) in
    let one : suc m + k ≡ suc (m + k) = omega arith in
    rw
      (
        one,
        take_one p (suc (m + k)) n x e (omega arith),
        inside,
        around p m (suc n) k (omega arith) small,
        drop-elem p.loops n x e,
      )
      refl

-- From any valid state, as many calls as there are loops give every loop once, in order round from
-- `next`, and come back to the state. Without loops a call gives the base loop.
pub take_loops_lem :
    (p : EventLoopThreadPool)
    → IsValid p
    → (length p.loops ≡ 0 → get_next_loop p ≡ some (p.base_loop, p))
      × (0 < length p.loops
          → take_loops (length p.loops) p ≡ some (drop p.next p.loops ++ take p.next p.loops, p))
unfolding get_next_loop
take_loops_lem p v = (
  λ e. rw e refl,
  λ some_loop.
      let count : suc (length p.loops - p.next - 1 + p.next) ≡ length p.loops = omega (arith, v) in
      subst (λ n. take_loops n p ≡ some (drop p.next p.loops ++ take p.next p.loops, p)) count
        (around p (length p.loops - p.next - 1) p.next p.next (omega (arith, v))
          (omega (arith, v))),
)

-- A valid pool gives a loop.
pub get_next_loop-some :
    (p : EventLoopThreadPool)
    → IsValid p
    → (loop : ℕ) × (p' : EventLoopThreadPool) × (get_next_loop p ≡ some (loop, p'))
unfolding get_next_loop
get_next_loop-some p v = elim (Bool-cases (length p.loops == 0)) [
  | inl empty ↦ (p.base_loop, p, rw empty refl)
  | inr loops ↦
      let (x, e) = has_elem p.loops p.next (ground arith) in
      (
        x,
        record p { next = if leb (length p.loops) (p.next + 1) then 0 else p.next + 1 },
        rw (loops, e) refl,
      )
]
