-- ===== src/ThreadPool.antt =====
-- base/thread_pool.h and thread_pool.cc: the bounded queue of tasks between the callers of `RunTask` and
-- the threads that `Take`. What a thread does under the lock is one step; one that has to wait on a
-- condition leaves the state as it is and tries again when it is notified.
pub mod Workers
pub mod Stopping
mod Tests
use ryan_network_library.Prelude.{
  ℕ, ◌+◌, ◌-◌, ◌≤◌, ◌<◌, ◌≡◌, refl, sym, ap, ◌∙◌, ◌≢◌, ◌↔◌, Bool, true, false, not, ◌&&◌, Option,
  some, List, [], ◌∷◌, ◌++◌, append_assoc, append-nil, arith, length, length-append, ltb, leb, ◌==◌,
  if◌then◌else◌, ◌>>=◌, ◌>>◌, check,
}

-- `num_threads` is the length of `threads_`.
pub record ThreadPool : Type 0 where
  pub num_threads : ℕ
  pub queue : List ℕ
  pub max_queue_size : ℕ
  pub running : Bool

unfoldable pub new_pool : ThreadPool
new_pool = record { num_threads = 0; queue = []; max_queue_size = 0; running = false }

unfoldable pub set_max_queue_size : ℕ → ThreadPool → ThreadPool
set_max_queue_size n p = record p { max_queue_size = n }

-- `Start`: an assertion that no thread runs yet; the second part tells whether the callback for new
-- threads runs in the caller.
unfoldable pub start : Bool → ℕ → ThreadPool → Option (Bool × ThreadPool)
start has_callback num_threads p = do
  check (p.num_threads == 0)
  some ((num_threads == 0) && has_callback, record p { running = true; num_threads = num_threads })

unfoldable pub is_full : ThreadPool → Bool
is_full p = ltb 0 p.max_queue_size && leb p.max_queue_size (length p.queue)

-- `Stop`, the part under the lock; both conditions are notified.
unfoldable pub stop : ThreadPool → ThreadPool
stop p = record p { running = false }

-- What an attempt of `RunTask` comes to: the task ran in the caller, the caller waits, the pool does not
-- run, the task is in the queue, or the assertion behind the loop failed.
pub data Submitted : Type 0 where
  ran put_off refused queued faulted : Submitted

unfoldable pub run_task : ℕ → ThreadPool → Submitted × ThreadPool
unfolding is_full
run_task task p =
    if p.num_threads == 0
    then (ran, p)
    else (if is_full p && p.running
        then (put_off, p)
        else (if not p.running
            then (refused, p)
            else (if is_full p
                then (faulted, p)
                else (queued, record p { queue = p.queue ++ (task ∷ []) }))))

-- What an attempt of `Take` comes to: the thread waits, gets the empty task, or gets a task, and then
-- notifies a caller where the queue is bounded.
pub data Taken : Type 0 where
  waits no_task : Taken
  task : ℕ → Bool → Taken

unfoldable pub take_task : ThreadPool → Taken × ThreadPool
take_task p = elim p.queue [
  | [] ↦ (if p.running then waits else no_task, p)
  | t ∷ ts ↦ (task t (ltb 0 p.max_queue_size), record p { queue = ts })
]

-- Attempts in any order, and the tasks accepted and handed out by them.
pub data Attempt : Type 0 where
  submit : ℕ → Attempt
  fetch : Attempt
  halt : Attempt

unfoldable pub step : Attempt → ThreadPool → ThreadPool
unfolding run_task take_task stop
step (submit t) p = (run_task t p).1
step fetch p = (take_task p).1
step halt p = stop p

abbrev accepted_by : Submitted → ℕ → List ℕ
accepted_by queued t = t ∷ []
accepted_by _ t = []

abbrev handed_by : Taken → List ℕ
handed_by (task t b) = t ∷ []
handed_by _ = []

abbrev pub accepts : Attempt → ThreadPool → List ℕ
accepts (submit t) p = accepted_by (run_task t p).0 t
accepts fetch p = []
accepts halt p = []

abbrev pub hands : Attempt → ThreadPool → List ℕ
hands (submit t) p = []
hands fetch p = handed_by (take_task p).0
hands halt p = []

unfoldable pub run : List Attempt → ThreadPool → ThreadPool
unfolding step
run [] p = p
run (a ∷ rest) p = run rest (step a p)

unfoldable pub all_accepted : List Attempt → ThreadPool → List ℕ
all_accepted [] p = []
all_accepted (a ∷ rest) p = accepts a p ++ all_accepted rest (step a p)

unfoldable pub all_handed : List Attempt → ThreadPool → List ℕ
all_handed [] p = []
all_handed (a ∷ rest) p = hands a p ++ all_handed rest (step a p)

abbrev pub IsBounded : ThreadPool → Type 0
IsBounded p = 0 < p.max_queue_size → length p.queue ≤ p.max_queue_size

queue-submit :
    (t : ℕ) (p : ThreadPool) → (step (submit t) p).queue ≡ p.queue ++ accepts (submit t) p
unfolding step run_task is_full
queue-submit t p = ground (arith, append-nil p.queue)

queue-fetch : (p : ThreadPool) → hands fetch p ++ (step fetch p).queue ≡ p.queue
unfolding step take_task
queue-fetch p = go p.queue p.num_threads p.max_queue_size p.running
  where
    go :
        (q : List ℕ) (n m : ℕ) (r : Bool)
        → let p : ThreadPool = record {
          num_threads = n;
          queue = q;
          max_queue_size = m;
          running = r;
        } in
          hands fetch p ++ (step fetch p).queue ≡ q
    go [] n m true = refl
    go [] n m false = refl
    go (t ∷ ts) n m r = refl

queue-step : (a : Attempt) (p : ThreadPool) → hands a p ++ (step a p).queue ≡ p.queue ++ accepts a p
unfolding step stop
queue-step (submit t) p = queue-submit t p
queue-step fetch p = queue-fetch p ∙ sym (append-nil p.queue)
queue-step halt p = sym (append-nil p.queue)

step-IsBounded : (a : Attempt) (p : ThreadPool) → IsBounded p → IsBounded (step a p)
unfolding step run_task is_full stop take_task
step-IsBounded (submit t) p v = ground (arith, length-append p.queue (t ∷ []))
step-IsBounded fetch p v = go p.queue p.num_threads p.max_queue_size p.running v
  where
    go :
        (q : List ℕ) (n m : ℕ) (r : Bool)
        → let p : ThreadPool = record {
          num_threads = n;
          queue = q;
          max_queue_size = m;
          running = r;
        } in
          IsBounded p → IsBounded (step fetch p)
    go [] n m r v = v
    go (t ∷ ts) n m r v = λ h. omega (arith, v h)
step-IsBounded halt p v = v

-- Attempts of any threads in any order, on a pool whose queue is within its bound: the tasks handed
-- out and those that wait are the ones that waited before followed by the accepted ones, in order, and
-- the queue stays within its bound.
pub run-IsBounded :
    (rest : List Attempt) (p : ThreadPool)
    → IsBounded p
    → (all_handed rest p ++ (run rest p).queue ≡ p.queue ++ all_accepted rest p)
      × IsBounded (run rest p)
unfolding run all_accepted all_handed
run-IsBounded [] p v = (sym (append-nil p.queue), v)
run-IsBounded (a ∷ rest) p v =
    let (e, w) = run-IsBounded rest (step a p) (step-IsBounded a p v) in
    (
      append_assoc (hands a p) (all_handed rest (step a p)) (run rest (step a p)).queue
          ∙ ap (λ l. hands a p ++ l) e
          ∙ sym (append_assoc (hands a p) (step a p).queue (all_accepted rest (step a p)))
          ∙ ap (λ l. l ++ all_accepted rest (step a p)) (queue-step a p)
          ∙ append_assoc p.queue (accepts a p) (all_accepted rest (step a p)),
      w,
    )

take_waits : (p : ThreadPool) → ((take_task p).0 ≡ waits) ↔ ((p.running ≡ true) × (p.queue ≡ []))
unfolding take_task
take_waits p = go p.queue p.num_threads p.max_queue_size p.running
  where
    go :
        (q : List ℕ) (n m : ℕ) (r : Bool)
        → let p : ThreadPool = record {
          num_threads = n;
          queue = q;
          max_queue_size = m;
          running = r;
        } in
          ((take_task p).0 ≡ waits) ↔ ((r ≡ true) × (q ≡ []))
    go [] n m true = (λ e. (refl, refl), λ e. refl)
    go [] n m false = (λ e. absurd cc, λ e. absurd cc)
    go (t ∷ ts) n m r = (λ e. absurd cc, λ e. absurd cc)

-- A pool with threads: no attempt of `RunTask` fails its assertion; it waits exactly if the pool runs
-- and is full, and is refused exactly if the pool does not run. `Take` waits exactly if the pool runs
-- and has no task, so that no thread waits in a pool that was stopped.
pub attempts_lem :
    (t : ℕ) (p : ThreadPool)
    → 0 < p.num_threads
    → let r = (run_task t p).0 in
      (r ≢ faulted)
      × ((r ≡ put_off) ↔ ((p.running ≡ true) × (is_full p ≡ true)))
      × ((r ≡ refused) ↔ (p.running ≡ false))
      × (((take_task p).0 ≡ waits) ↔ ((p.running ≡ true) × (p.queue ≡ [])))
unfolding run_task take_task is_full
attempts_lem t p h = (
  λ e. ground arith,
  (λ e. (ground arith, ground arith), λ e. ground arith),
  (λ e. ground arith, λ e. ground arith),
  take_waits p,
)
