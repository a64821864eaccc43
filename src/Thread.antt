-- ===== src/Thread.antt =====
-- base/thread.h and thread.cc: a thread's object, the thread that starts and joins it, and the new
-- thread. The thread of the system, its number and the semaphore of `Start` are steps: creating,
-- posting, waiting, joining. `decimal` is how `snprintf` writes a number.
mod Tests
use ryan_network_library.Prelude.{
  ℕ, suc, ◌+◌, ◌-◌, ◌≤◌, ◌<◌, ◌≡◌, ◌≢◌, refl, Bool, true, false, not, ◌&&◌, List, [], ◌∷◌, ◌++◌,
  arith, length, take, ◌==◌, if◌then◌else◌,
}

-- Where the new thread stands: not there, at the start of its function, behind the post, behind the
-- call of `func_`.
pub data Place : Type 0 where
  absent created posted ended : Place

-- Where the owner stands: outside, in the wait of `Start`, behind `Start`, in `Join`, behind `Join`,
-- behind the destructor.
pub data Owner : Type 0 where
  outside waiting running joining joined_it gone : Owner

-- `id` is the number that the system gives the thread, `posts` the semaphore, `calls` how often
-- `func_` was called and has returned, `detached` what the destructor did.
pub record Thread : Type 0 where
  pub started : Bool
  pub joined : Bool
  pub tid : ℕ
  pub name : List ℕ
  pub id : ℕ
  pub posts : ℕ
  pub calls : ℕ
  pub detached : Bool
  pub place : Place
  pub owner : Owner

module _ (decimal : ℕ → List ℕ) where
  -- `SetDefaultName` for the thread of this number: 32 bytes keep 31.
  unfoldable pub set_default_name : ℕ → List ℕ → List ℕ
  set_default_name num [] = take 31 ((b'T' ∷ b'h' ∷ b'r' ∷ b'e' ∷ b'a' ∷ b'd' ∷ []) ++ decimal num)
  set_default_name num (c ∷ name) = c ∷ name

  -- The constructor.
  unfoldable pub new_thread : ℕ → List ℕ → ℕ → Thread
  unfolding set_default_name
  new_thread num name id = record {
    started = false;
    joined = false;
    tid = 0;
    name = set_default_name num name;
    id = id;
    posts = 0;
    calls = 0;
    detached = false;
    place = absent;
    owner = outside;
  }

-- `Start` up to the wait.
unfoldable pub start : Thread → Thread
start t = record t { started = true; place = created; owner = waiting }

-- The new thread up to the post.
unfoldable pub post : Thread → Thread
post t = record t { tid = t.id; posts = t.posts + 1; place = posted }

-- `sem_wait`, behind a post.
unfoldable pub wait : Thread → Thread
wait t = record t { posts = t.posts - 1; owner = running }

-- The call of `func_`.
unfoldable pub call_func : Thread → Thread
call_func t = record t { calls = t.calls + 1; place = ended }

-- `Join` up to the wait, and behind it.
unfoldable pub join : Thread → Thread
join t = record t { joined = true; owner = joining }

unfoldable pub joined_behind : Thread → Thread
joined_behind t = record t { owner = joined_it }

-- The destructor.
unfoldable pub destroy : Thread → Thread
destroy t = record t { detached = t.started && not t.joined; owner = gone }

-- The steps of the owner and of the new thread, in any order. A thread is started and joined at most
-- once.
pub data Step : Thread → Thread → Type 0 where
  starts : (t : Thread) → t.owner ≡ outside → Step t (start t)
  posts_tid : (t : Thread) → t.place ≡ created → Step t (post t)
  waits : (t : Thread) → t.owner ≡ waiting → 0 < t.posts → Step t (wait t)
  calls_func : (t : Thread) → t.place ≡ posted → Step t (call_func t)
  joins : (t : Thread) → t.owner ≡ running → Step t (join t)
  returns : (t : Thread) → t.owner ≡ joining → t.place ≡ ended → Step t (joined_behind t)
  leaves :
      (t : Thread) → t.owner ≢ waiting → t.owner ≢ joining → t.owner ≢ gone → Step t (destroy t)

pub data Steps (t : Thread) : Thread → Type 0 where
  here : Steps t t
  next : {u v : Thread} → Steps t u → Step u v → Steps t v

abbrev has_posted : Place → Bool
has_posted posted = true
has_posted ended = true
has_posted _ = false

abbrev calls_at : Place → ℕ
calls_at ended = 1
calls_at _ = 0

-- Which places of the two come together, with the posts that are left and the two flags.
abbrev go_together : Owner → Place → ℕ → Bool
go_together outside absent n = n == 0
go_together waiting created n = n == 0
go_together waiting posted n = n == 1
go_together waiting ended n = n == 1
go_together running posted n = n == 0
go_together running ended n = n == 0
go_together joining posted n = n == 0
go_together joining ended n = n == 0
go_together joined_it ended n = n == 0
go_together gone absent n = n == 0
go_together gone posted n = n == 0
go_together gone ended n = n == 0
go_together _ _ n = false

-- Whether the flag of `Join` fits: a joined thread has ended when its object is gone.
abbrev flag_fits : Owner → Place → Bool → Bool
flag_fits joining place joined = joined
flag_fits joined_it place joined = joined
flag_fits gone ended joined = true
flag_fits _ place joined = not joined

abbrev has_begun : Place → Bool
has_begun absent = false
has_begun _ = true

record IsKept (t : Thread) : Type 0 where
  pub number : has_posted t.place ≡ true → t.tid ≡ t.id
  pub once : t.calls ≡ calls_at t.place
  pub together : go_together t.owner t.place t.posts ≡ true
  pub flag : flag_fits t.owner t.place t.joined ≡ true
  pub begun : t.started ≡ has_begun t.place
  pub let_go : t.owner ≡ gone → t.detached ≡ (t.started && not t.joined)

Step-IsKept : {t u : Thread} → Step t u → IsKept t → IsKept u
unfolding start post wait call_func join joined_behind destroy
Step-IsKept (starts t at) v = record {
  number = λ e. absurd (ground arith);
  once = ground (arith, v.once, v.together);
  together = ground (arith, v.together);
  flag = ground (arith, v.together, v.flag);
  begun = ground (arith, v.together, v.begun);
  let_go = λ e. absurd (ground arith);
}
Step-IsKept (posts_tid t at) v = record {
  number = λ e. refl;
  once = ground (arith, v.once, v.together);
  together = ground (arith, v.together);
  flag = ground (arith, v.together, v.flag);
  begun = ground (arith, v.together, v.begun);
  let_go = v.let_go;
}
Step-IsKept (waits t at n) v = record {
  number = v.number;
  once = ground (arith, v.once, v.together);
  together = ground (arith, v.together);
  flag = ground (arith, v.together, v.flag);
  begun = ground (arith, v.together, v.begun);
  let_go = λ e. absurd (ground arith);
}
Step-IsKept (calls_func t at) v = record {
  number = λ e. v.number (ground arith);
  once = ground (arith, v.once, v.together);
  together = ground (arith, v.together);
  flag = ground (arith, v.together, v.flag);
  begun = ground (arith, v.together, v.begun);
  let_go = v.let_go;
}
Step-IsKept (joins t at) v = record {
  number = v.number;
  once = ground (arith, v.once, v.together);
  together = ground (arith, v.together);
  flag = ground (arith, v.together, v.flag);
  begun = ground (arith, v.together, v.begun);
  let_go = λ e. absurd (ground arith);
}
Step-IsKept (returns t at e) v = record {
  number = v.number;
  once = ground (arith, v.once, v.together);
  together = ground (arith, v.together);
  flag = ground (arith, v.together, v.flag);
  begun = ground (arith, v.together, v.begun);
  let_go = λ e. absurd (ground arith);
}
Step-IsKept (leaves t a b c) v = record {
  number = v.number;
  once = ground (arith, v.once, v.together);
  together = ground (arith, v.together);
  flag = ground (arith, v.together, v.flag);
  begun = ground (arith, v.together, v.begun);
  let_go = λ e. refl;
}

Steps-IsKept : {t u : Thread} → Steps t u → IsKept t → IsKept u
Steps-IsKept here v = v
Steps-IsKept (next ss st) v = Step-IsKept st (Steps-IsKept ss v)

-- The wait of `Start` can end.
wait_can_end :
    (t : Thread) (p : Place)
    → t.place ≡ p
    → t.owner ≡ waiting
    → IsKept t
    → (u : Thread) × Steps t u × (u.owner ≡ running)
unfolding post wait
wait_can_end t absent e at v = absurd (ground (arith, v.together))
wait_can_end t created e at v =
    (wait (post t), next (next here (posts_tid t e)) (waits (post t) at (omega arith)), refl)
wait_can_end t posted e at v = (wait t, next here (waits t at (ground (arith, v.together))), refl)
wait_can_end t ended e at v = (wait t, next here (waits t at (ground (arith, v.together))), refl)

-- Any history of a new thread object: whoever is behind `Start` reads the number that the system gave
-- the thread; the function is called at most once, and was called once when `Join` has returned; the
-- wait of `Start` can end; and the function runs on without its object only if the destructor detached
-- it.
pub history_lem :
    (decimal : ℕ → List ℕ) (num : ℕ) (name : List ℕ) (id : ℕ) (t : Thread)
    → Steps (new_thread decimal num name id) t
    → (t.owner ≡ running → t.tid ≡ t.id)
      × (t.calls ≤ 1)
      × (t.owner ≡ joined_it → t.calls ≡ 1)
      × (t.owner ≡ waiting → (u : Thread) × Steps t u × (u.owner ≡ running))
      × (t.owner ≡ gone → t.place ≡ posted → t.detached ≡ true)
unfolding new_thread
history_lem decimal num name id t ss =
    let v : IsKept t = Steps-IsKept ss (record {
      number = λ e. cc;
      once = refl;
      together = refl;
      flag = refl;
      begun = refl;
      let_go = λ e. cc;
    }) in
    (
      λ at. v.number (ground (arith, v.together)),
      ground (arith, v.once),
      λ at. ground (arith, v.once, v.together),
      λ at. wait_can_end t t.place refl at v,
      λ at e. ground (arith, v.flag, v.begun, v.let_go at),
    )
