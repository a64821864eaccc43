-- ===== src/MysqlConnPool/Counts.antt =====
-- How many connections of mysql/mysql_conn_pool.cc there are, and what the counter says.
use ryan_network_library.Prelude.{
  ℕ, zero, suc, ◌+◌, ◌-◌, ◌≤◌, ◌<◌, ◌≡◌, refl, sym, ap, ◌∙◌, ◌⊎◌, inl, inr, ◌&&◌, Option, none,
  some, List, [], ◌∷◌, arith, length, length-append, ltb, leb, ◌==◌, ltb→lt, Bool-cases,
}
use ryan_network_library.MysqlConnPool.{
  MysqlConn, MysqlConnPool, add_connection, count_up, open_all, empty_pool, new_pool,
  produce_connection, recycle, recycle_connection, get_connection, give_back, close_all, end_pool,
  Step, produces, recycles, gets, gives, Steps, here, next,
}

-- The counts of the connections, and the counter.
pub record IsCounted (p : MysqlConnPool) : Type 0 where
  pub kept : length p.connection_queue + p.lent + p.closed ≡ p.created
  pub twice : p.current_size + p.closed ≡ p.created + p.created

open_all-IsCounted : (now n : ℕ) (p : MysqlConnPool) → IsCounted p → IsCounted (open_all now n p)
unfolding open_all add_connection
open_all-IsCounted now zero p v = v
open_all-IsCounted now (suc n) p v = open_all-IsCounted now n (count_up (add_connection now p)) (
    omega (
      arith,
      v.kept,
      v.twice,
      length-append p.connection_queue (record { conn = p.created; alive_since = now } ∷ []),
    ))

pub new_pool-IsCounted :
    (now min_size max_size idle : ℕ) → IsCounted (new_pool now min_size max_size idle)
unfolding new_pool
new_pool-IsCounted now min_size max_size idle =
    open_all-IsCounted now min_size (empty_pool min_size max_size idle)
      (record { kept = refl; twice = refl })

recycle-IsCounted :
    (now : ℕ) (cs : List MysqlConn) (p : MysqlConnPool)
    → length cs + p.lent + p.closed ≡ p.created
    → p.current_size + p.closed ≡ p.created + p.created
    → IsCounted (recycle now cs p)
unfolding recycle
recycle-IsCounted now [] p k t = record { kept = k; twice = t }
recycle-IsCounted now (c ∷ cs) p k t =
    elim (Bool-cases
      (ltb p.min_size (length (c ∷ cs)) && leb p.max_idle_time (now - c.alive_since))) [
        | inl idle ↦ rw idle (
            recycle-IsCounted now cs
              (record p { current_size = p.current_size - 1; closed = p.closed + 1 }) (omega arith)
              (omega arith))
        | inr stays ↦ rw stays (record { kept = k; twice = t })
      ]

recycle-created :
    (now : ℕ) (cs : List MysqlConn) (p : MysqlConnPool)
    → ((recycle now cs p).created ≡ p.created) × ((recycle now cs p).max_size ≡ p.max_size)
unfolding recycle
recycle-created now [] p = (refl, refl)
recycle-created now (c ∷ cs) p =
    elim (Bool-cases
      (ltb p.min_size (length (c ∷ cs)) && leb p.max_idle_time (now - c.alive_since))) [
        | inl idle ↦ rw idle (
            recycle-created now cs
              (record p { current_size = p.current_size - 1; closed = p.closed + 1 }))
        | inr stays ↦ rw stays (refl, refl)
      ]

first_of :
    (queue : List MysqlConn) (f : List MysqlConn → MysqlConnPool) (c : MysqlConn)
    (p' : MysqlConnPool)
    → elim queue as (λ q. Option (MysqlConn × MysqlConnPool)) [
      | [] ↦ none
      | x ∷ cs ↦ some (x, f cs)
    ]
      ≡ some (c, p')
    → (cs : List MysqlConn) × (queue ≡ c ∷ cs) × (p' ≡ f cs)
first_of [] f c p' e = absurd cc
first_of (x ∷ cs) f c p' e =
    let pair : ◌≡◌ {A = MysqlConn × MysqlConnPool} (x, f cs) (c, p') = cc in
    (cs, ap (λ y. y.0 ∷ cs) pair, sym (ap (λ y. y.1) pair))

-- What a successful `GetConnection` found and left.
get_connection-some :
    (c : MysqlConn) (p p' : MysqlConnPool)
    → get_connection p ≡ some (c, p')
    → (cs : List MysqlConn) × (p.connection_queue ≡ c ∷ cs)
      × (p' ≡ record p { connection_queue = cs; lent = p.lent + 1 })
unfolding get_connection
get_connection-some c p p' e =
    first_of p.connection_queue (λ cs. record p { connection_queue = cs; lent = p.lent + 1 }) c p' e

-- What a round of `ProduceConnection` comes to.
produce_connection-some :
    (now : ℕ) (p p' : MysqlConnPool)
    → produce_connection now p ≡ some p'
    → ((p' ≡ p) ⊎ ((p.current_size < p.max_size) × (p' ≡ count_up (add_connection now p))))
unfolding produce_connection
produce_connection-some now p p' e = elim (Bool-cases (length p.connection_queue == 0)) [
  | inl empty ↦ elim (Bool-cases (ltb p.current_size p.max_size)) [
    | inl room ↦ inr (ltb→lt p.current_size p.max_size room, ground (arith, e))
    | inr full ↦ inl (ground (arith, e))
  ]
  | inr waiting ↦ absurd (ground (arith, e))
]

Step-IsCounted : {p q : MysqlConnPool} → Step p q → IsCounted p → IsCounted q
unfolding add_connection recycle_connection give_back
Step-IsCounted (produces now p p' e) v = elim (produce_connection-some now p p' e) [
  | inl same ↦ rw same v
  | inr (room, grown) ↦ rw grown (
      omega (
        arith,
        v.kept,
        v.twice,
        length-append p.connection_queue (record { conn = p.created; alive_since = now } ∷ []),
      ))
]
Step-IsCounted (recycles now p) v = recycle-IsCounted now p.connection_queue p v.kept v.twice
Step-IsCounted (gets c p p' e) v =
    let (cs, q, left) = get_connection-some c p p' e in
    rw left (omega (arith, v.kept, v.twice, ap length q))
Step-IsCounted (gives now c p h) v =
    omega (
      arith,
      v.kept,
      v.twice,
      length-append p.connection_queue (record c { alive_since = now } ∷ []),
    )

-- From a counted pool the threads' steps in any order lead to a counted pool: every connection that was
-- opened waits, is lent or was closed, and the counter is the number of those that live plus the number
-- of all that were ever opened.
pub Steps-IsCounted : {p q : MysqlConnPool} → Steps p q → IsCounted p → IsCounted q
Steps-IsCounted here v = v
Steps-IsCounted (next s t) v = Step-IsCounted t (Steps-IsCounted s v)

close_all-IsCounted :
    (cs : List MysqlConn) (p : MysqlConnPool)
    → length cs + p.lent + p.closed ≡ p.created
    → p.current_size + p.closed ≡ p.created + p.created
    → IsCounted (close_all cs p)
      × ((close_all cs p).connection_queue ≡ [])
      × ((close_all cs p).lent ≡ p.lent)
      × ((close_all cs p).created ≡ p.created)
unfolding close_all
close_all-IsCounted [] p k t = (record { kept = k; twice = t }, refl, refl, refl)
close_all-IsCounted (c ∷ cs) p k t =
    close_all-IsCounted cs (record p { current_size = p.current_size - 1; closed = p.closed + 1 })
      (omega arith) (omega arith)

-- The threads' steps in any order from a counted pool, and then the destructor: it closes every
-- connection that waits, so that exactly the lent ones are left open, and the counter stands at their
-- number plus that of all that were ever opened.
pub end_pool_lem :
    {p q : MysqlConnPool}
    → Steps p q
    → IsCounted p
    → ((end_pool q).connection_queue ≡ [])
      × ((end_pool q).created ≡ (end_pool q).closed + q.lent)
      × ((end_pool q).current_size ≡ q.lent + q.created)
unfolding end_pool
end_pool_lem {p} {q} s v =
    let w = Steps-IsCounted s v in
    let (u, empty, lent, created) = close_all-IsCounted q.connection_queue q w.kept w.twice in
    (
      empty,
      omega (arith, u.kept, ap length empty, lent),
      omega (arith, u.kept, u.twice, ap length empty, lent, created),
    )

-- From a counted pool in which `max_size_` connections were opened, none is opened again, whatever the
-- threads do: not even when all of them were closed.
pub Steps-created :
    {p q : MysqlConnPool}
    → Steps p q
    → IsCounted p
    → p.max_size ≤ p.created
    → (q.created ≡ p.created) × (q.max_size ≡ p.max_size)
unfolding add_connection recycle_connection give_back
Steps-created here v full = (refl, refl)
Steps-created {p} (next s (produces now q r e)) v full =
    let (same_created, same_max) = Steps-created s v full in
    let w = Steps-IsCounted s v in
    elim (produce_connection-some now q r e) [
      | inl same ↦ rw same (same_created, same_max)
      | inr (room, grown) ↦
          absurd (omega (arith, w.kept, w.twice, room, full, same_created, same_max))
    ]
Steps-created {p} (next s (recycles now q)) v full =
    let (same_created, same_max) = Steps-created s v full in
    let (a, b) = recycle-created now q.connection_queue q in (a ∙ same_created, b ∙ same_max)
Steps-created {p} (next s (gets c q r e)) v full =
    let (cs, _, left) = get_connection-some c q r e in rw left (Steps-created s v full)
Steps-created (next s (gives now c q h)) v full = Steps-created s v full
