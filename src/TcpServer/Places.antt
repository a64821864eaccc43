-- ===== src/TcpServer/Places.antt =====
-- The pool and the lists of descriptors that tcp_connection/tcp_server.cc keeps.
use ryan_network_library.Prelude.{
  ℕ, ◌+◌, ◌<◌, ◌≡◌, refl, ap, ◌⊎◌, inl, inr, Bool, some, List, [], ◌∷◌, ◌++◌, arith, length,
  length-append, ◌==◌, if◌then◌else◌, Bool-cases, Option-cases, times,
}
use ryan_network_library.EventLoopThreadPool.{EventLoopThreadPool, IsValid, start, get_next_loop}
use ryan_network_library.Http.Request.{bytes_eq}
use ryan_network_library.TcpServer.{erase_conn, find_conn}
use ryan_network_library.TcpServer.Listening.{descriptors, take_waiting}

-- The pool can give a loop, before its start and after it.
abbrev pub IsReady : EventLoopThreadPool → Type 0
IsReady p = (p.next ≡ 0) ⊎ (p.next < length p.loops)

pub IsReady-IsValid : (p : EventLoopThreadPool) → IsReady p → IsValid p
IsReady-IsValid p (inr small) = inr small
IsReady-IsValid p (inl first) = elim (Bool-cases (length p.loops == 0)) [
  | inl empty ↦ inl (ground arith)
  | inr loops ↦ inr (ground arith)
]

pub start-IsReady :
    (has_cb : Bool) (start_loop : ℕ → ℕ) (p : EventLoopThreadPool)
    → IsReady p
    → IsReady (start has_cb start_loop p).1
unfolding start
start-IsReady has_cb start_loop p (inl first) = inl first
start-IsReady has_cb start_loop p (inr small) = inr (omega (arith, length-append p.loops _))

pub get_next_loop-IsReady :
    (p p' : EventLoopThreadPool) (loop : ℕ)
    → IsReady p
    → get_next_loop p ≡ some (loop, p')
    → IsReady p'
unfolding get_next_loop
get_next_loop-IsReady p p' loop r e = ground (arith, r)

pub take_waiting-times :
    (fd : ℕ) (xs xs' : List ℕ) (other : ℕ)
    → take_waiting fd xs ≡ some xs'
    → times other xs ≡ (if fd == other then 1 else 0) + times other xs'
unfolding take_waiting
take_waiting-times fd [] xs' other e = absurd (ground arith)
take_waiting-times fd (x ∷ xs) xs' other e = elim (Bool-cases (x == fd)) [
  | inl hit ↦ ground arith
  | inr miss ↦ elim (Option-cases (take_waiting fd xs)) [
    | inl gone ↦ absurd (ground arith)
    | inr (ys, f) ↦
        let same : xs' ≡ x ∷ ys = ground arith in
        rw same (omega (arith, take_waiting-times fd xs ys other f))
  ]
]

pub descriptors-append :
    (cs ds : List (List ℕ × ℕ)) → descriptors (cs ++ ds) ≡ descriptors cs ++ descriptors ds
descriptors-append [] ds = refl
descriptors-append ((name, fd) ∷ cs) ds = ap (λ l. fd ∷ l) (descriptors-append cs ds)

pub erase_conn-times :
    (name : List ℕ) (cs : List (List ℕ × ℕ)) (fd other : ℕ)
    → find_conn name cs ≡ some fd
    → times other (descriptors cs)
      ≡ (if fd == other then 1 else 0) + times other (descriptors (erase_conn name cs))
unfolding erase_conn
erase_conn-times name [] fd other e = absurd (ground arith)
erase_conn-times name ((n, c) ∷ cs) fd other e = elim (Bool-cases (bytes_eq n name)) [
  | inl hit ↦ let same : c ≡ fd = ground arith in rw (hit, same) refl
  | inr miss ↦
      let ih = erase_conn-times name cs fd other (ground arith) in rw miss (omega (arith, ih))
]
