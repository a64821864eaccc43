-- ===== src/ThreadPool/Stopping.antt =====
-- How the threads of base/thread_pool.cc end after Stop.
use ryan_network_library.Prelude.{
  ℕ, zero, suc, ◌+◌, ◌≤◌, ◌<◌, ◌≡◌, refl, ap, subst, ◌≢◌, ◌⊎◌, inl, inr, Bool, false, some, List,
  [], ◌∷◌, ◌++◌, arith, length, get_elem?, set, ltb, if◌then◌else◌, Bool-cases, Option-cases, ◌==◌,
}
use ryan_network_library.ThreadPool.{ThreadPool, no_task, task, take_task}
use ryan_network_library.ThreadPool.Workers.{
  Place, testing, taking, working, finished, Workers, put, after_take, take_step, step_from, work,
  works,
}

-- How many steps a thread of a stopped pool has left, and whether it is at a `Take`.
abbrev pub steps_left : Place → ℕ
steps_left finished = 0
steps_left testing = 1
steps_left (working t) = 2
steps_left taking = 3

abbrev pub takes : Place → ℕ
takes taking = 1
takes _ = 0

module _ (f : Place → ℕ) where
  abbrev pub total : List Place → ℕ
  total [] = 0
  total (p ∷ ps) = f p + total ps

  total-set :
      (ps : List Place) (i : ℕ) (p q : Place)
      → get_elem? ps i ≡ some p
      → total (set ps i q) + f p ≡ total ps + f q
  total-set [] i p q e = absurd (ground arith)
  total-set (x ∷ ps) zero p q e = let same : x ≡ p = ground arith in omega (arith, ap f same)
  total-set (x ∷ ps) (suc i) p q e = omega (arith, total-set ps i p q e)

-- What a step of a stopped pool does: there is less to do, and a task leaves the queue only for a
-- thread that was in `Take`.
abbrev Nearer : Workers → Workers → Type 0
Nearer s s' =
    (total steps_left s'.threads < total steps_left s.threads)
    × (s'.pool.running ≡ false)
    × (length s.pool.queue + total takes s'.threads ≤ length s'.pool.queue + total takes s.threads)

-- A `Take` of a stopped pool does not wait.
take_stopped :
    (p : ThreadPool)
    → p.running ≡ false
    → ((take_task p ≡ (no_task, p)) × (p.queue ≡ []))
      ⊎ ((t : ℕ) × (ts : List ℕ) × (notifies : Bool) × (p.queue ≡ t ∷ ts)
          × (take_task p ≡ (task t notifies, record p { queue = ts })))
unfolding take_task
take_stopped p off = go p.queue p.num_threads p.max_queue_size p.running off
  where
    go :
        (q : List ℕ) (n m : ℕ) (r : Bool)
        → r ≡ false
        → let p : ThreadPool = record {
          num_threads = n;
          queue = q;
          max_queue_size = m;
          running = r;
        } in
          ((take_task p ≡ (no_task, p)) × (q ≡ []))
          ⊎ ((t : ℕ) × (ts : List ℕ) × (notifies : Bool) × (q ≡ t ∷ ts)
              × (take_task p ≡ (task t notifies, record p { queue = ts })))
    go [] n m r off = inl (rw off refl, refl)
    go (t ∷ ts) n m r off = inr (t, ts, ltb 0 m, refl, refl)

-- What a thread at a place finds in a stopped pool.
abbrev Finds : Place → ℕ → Workers → Workers → Type 0
Finds p i s s' =
    (q : Place) × (s'.threads ≡ set s.threads i q)
    × (steps_left q < steps_left p)
    × (s'.pool.running ≡ false)
    × (length s.pool.queue + takes q ≤ length s'.pool.queue + takes p)

step_from-Finds :
    (p : Place) (i : ℕ) (s : Workers)
    → s.pool.running ≡ false
    → p ≢ finished
    → (s' : Workers) × (step_from p i s ≡ some s') × Finds p i s s'
unfolding step_from take_step
step_from-Finds finished i s off n = absurd (n refl)
step_from-Finds testing i s off n = (
  put i finished s,
  ap (λ running. some (put i (if running then taking else finished) s)) off,
  (finished, refl, omega arith, off, omega arith),
)
step_from-Finds (working t) i s off n = (
  put i testing (record s { ran = s.ran ++ (t ∷ []) }),
  refl,
  (testing, refl, omega arith, off, omega arith),
)
step_from-Finds taking i s off n = elim (take_stopped s.pool off) [
  | inl (e, empty) ↦ (
    put i testing s,
    ap (λ r. after_take r i s) e,
    (testing, refl, omega arith, off, omega arith),
  )
  | inr (t, ts, notifies, q, e) ↦ (
    put i (working t) (record s { pool = record s.pool { queue = ts } }),
    ap (λ r. after_take r i s) e,
    (working t, refl, omega arith, off, omega (arith, ap length q)),
  )
]

Finds-Nearer :
    (p : Place) (i : ℕ) (s s' : Workers)
    → get_elem? s.threads i ≡ some p
    → Finds p i s s'
    → Nearer s s'
Finds-Nearer p i s s' at (q, e, less, off, tasks) =
    let left = total-set steps_left s.threads i p q at in
    let at_take = total-set takes s.threads i p q at in
    (rw e (omega (arith, left)), off, rw e (omega (arith, at_take)))

is_finished : (p : Place) → (p ≡ finished) ⊎ (p ≢ finished)
is_finished finished = inl refl
is_finished testing = inr (λ e. cc)
is_finished taking = inr (λ e. cc)
is_finished (working t) = inr (λ e. cc)

-- A step of a thread of a stopped pool.
work-Nearer : (i : ℕ) (s s' : Workers) → s.pool.running ≡ false → work i s ≡ some s' → Nearer s s'
unfolding work step_from
work-Nearer i s s' off e = elim (Option-cases (get_elem? s.threads i)) [
  | inl out ↦ absurd (ground (arith, e))
  | inr (p, at) ↦
      let stepped : step_from p i s ≡ some s' = rw at at e in
      elim (is_finished p) [
        | inl ended ↦ absurd (ground arith)
        | inr n ↦
            let (u, f, found) = step_from-Finds p i s off n in
            let same : u ≡ s' = cc in subst (Nearer s) same (Finds-Nearer p i s u at found)
      ]
]

-- While a thread is not behind its loop, there is one that can go on.
can_go_on :
    (s : Workers) (ps : List Place)
    → 0 < total steps_left ps
    → (i : ℕ) × (p : Place) × (get_elem? ps i ≡ some p) × (p ≢ finished)
can_go_on s [] h = absurd (omega arith)
can_go_on s (p ∷ ps) h = elim (is_finished p) [
  | inr n ↦ (0, p, refl, n)
  | inl ended ↦
      let (i, q, e, n) = can_go_on s ps (omega (arith, ap steps_left ended)) in (suc i, q, e, n)
]

works-all :
    (fuel : ℕ) (s : Workers)
    → s.pool.running ≡ false
    → total steps_left s.threads ≤ fuel
    → (is : List ℕ) × (s' : Workers) × (works is s ≡ some s') × (total steps_left s'.threads ≡ 0)
unfolding works work
works-all zero s off h = ([], s, refl, omega arith)
works-all (suc fuel) s off h = elim (Bool-cases (total steps_left s.threads == 0)) [
  | inl done ↦ ([], s, refl, ground arith)
  | inr more ↦
      let (i, p, at, n) = can_go_on s s.threads (ground arith) in
      let (u, e, found) = step_from-Finds p i s off n in
      let near = Finds-Nearer p i s u at found in
      let (is, s', f, z) = works-all fuel u near.1 (omega (arith, near.0)) in
      (i ∷ is, s', rw (at, e) f, z)
]

works-Nearer :
    (is : List ℕ) (s s' : Workers)
    → s.pool.running ≡ false
    → works is s ≡ some s'
    → (length is + total steps_left s'.threads ≤ total steps_left s.threads)
      × (length s.pool.queue + total takes s'.threads
          ≤ length s'.pool.queue + total takes s.threads)
      × (s'.pool.running ≡ false)
unfolding works
works-Nearer [] s s' off e =
    let same : s ≡ s' = cc in
    subst
      (λ u.
        (0 + total steps_left u.threads ≤ total steps_left s.threads)
        × (length s.pool.queue + total takes u.threads
            ≤ length u.pool.queue + total takes s.threads)
        × (u.pool.running ≡ false))
      same (omega arith, omega arith, off)
works-Nearer (i ∷ is) s s' off e = elim (Option-cases (work i s)) [
  | inl stuck ↦ absurd (ground (arith, e))
  | inr (u, f) ↦
      let rest : works is u ≡ some s' = rw f at e in
      let (less, still, tasks) = work-Nearer i s u off f in
      let (a, b, c) = works-Nearer is u s' still rest in
      (omega (arith, a, less), omega (arith, b, tasks), c)
]

-- A pool that was stopped, with its threads anywhere: whatever steps the threads then take, each
-- brings the pool nearer to its end, so that there are at most three for each thread, and of the tasks
-- in the queue no more are taken than threads were in `Take`, while the others are never run; and
-- there are steps after which every thread is behind its loop, so that the joins of `Stop` return.
pub works_lem :
    (is : List ℕ) (s s' : Workers)
    → s.pool.running ≡ false
    → works is s ≡ some s'
    → (length is + total steps_left s'.threads ≤ total steps_left s.threads)
      × (length s.pool.queue ≤ length s'.pool.queue + total takes s.threads)
      × ((js : List ℕ) × (u : Workers) × (works js s' ≡ some u) × (total steps_left u.threads ≡ 0))
works_lem is s s' off e =
    let (a, b, c) = works-Nearer is s s' off e in
    (a, omega (arith, b), works-all (total steps_left s'.threads) s' c (omega arith))
