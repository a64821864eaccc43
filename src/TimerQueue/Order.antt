-- ===== src/TimerQueue/Order.antt =====
-- The set of timers: it stays in strict order, holds what was inserted, and is cut at a time.
use ryan_network_library.Prelude.{
  ℕ, ◌-◌, ◌^◌, ◌≤◌, ◌<◌, ◌≡◌, refl, ap, inl, inr, Bool, true, false, ◌&&◌, ◌||◌, List, [], ◌∷◌,
  ◌++◌, arith, leb, ◌==◌, if◌then◌else◌, Bool-cases,
}
use ryan_network_library.TimerQueue.{Entry, before, sentry, insert_entry, split_before}

-- Every entry stands behind `e`.
unfoldable pub AllAfter : Entry → List Entry → Type 0
AllAfter e [] = Unit {0}
AllAfter e (x ∷ xs) = (before e x ≡ true) × AllAfter e xs

unfoldable pub IsSorted : List Entry → Type 0
unfolding AllAfter
IsSorted [] = Unit {0}
IsSorted (x ∷ xs) = AllAfter x xs × IsSorted xs

abbrev pub same_entry : Entry → Entry → Bool
same_entry a b = (a.when == b.when) && (a.timer == b.timer)

-- Whether an entry is in the list.
abbrev pub has : Entry → List Entry → Bool
has e [] = false
has e (x ∷ xs) = same_entry e x || has e xs

-- Every address is below that of the sentry.
abbrev pub AllAddresses : List Entry → Type 0
AllAddresses [] = Unit {0}
AllAddresses (x ∷ xs) = (x.timer < 2 ^ 64 - 1) × AllAddresses xs

abbrev pub AllExpired : ℕ → List Entry → Type 0
AllExpired now [] = Unit {0}
AllExpired now (x ∷ xs) = (x.when ≤ now) × AllExpired now xs

abbrev pub AllPending : ℕ → List Entry → Type 0
AllPending now [] = Unit {0}
AllPending now (x ∷ xs) = (now < x.when) × AllPending now xs

-- The entries whose time has come, and the others, in order.
abbrev pub due : ℕ → List Entry → List Entry
due now [] = []
due now (x ∷ xs) = if leb x.when now then x ∷ due now xs else due now xs

abbrev pub not_due : ℕ → List Entry → List Entry
not_due now [] = []
not_due now (x ∷ xs) = if leb x.when now then not_due now xs else x ∷ not_due now xs

due-pending :
    (now : ℕ) (ys : List Entry) → AllPending now ys → (due now ys ≡ []) × (not_due now ys ≡ ys)
due-pending now [] h = (refl, refl)
due-pending now (y ∷ ys) h =
    let late : leb y.when now ≡ false = ground (arith, h.0) in
    let (d, n) = due-pending now ys h.1 in rw late (d, ap (λ l. y ∷ l) n)

-- A list that is cut at a time has the due entries in front.
pub due_cut :
    (now : ℕ) (xs ys : List Entry)
    → AllExpired now xs
    → AllPending now ys
    → (due now (xs ++ ys) ≡ xs) × (not_due now (xs ++ ys) ≡ ys)
due_cut now [] ys e p = due-pending now ys p
due_cut now (x ∷ xs) ys e p =
    let early : leb x.when now ≡ true = ground (arith, e.0) in
    let (d, n) = due_cut now xs ys e.1 p in rw early (ap (λ l. x ∷ l) d, n)

before_trans : (a b c : Entry) → before a b ≡ true → before b c ≡ true → before a c ≡ true
before_trans a b c e f = ground arith

AllAfter-trans : (a b : Entry) (xs : List Entry) → before a b ≡ true → AllAfter b xs → AllAfter a xs
unfolding AllAfter
AllAfter-trans a b [] e h = tt
AllAfter-trans a b (x ∷ xs) e h = (before_trans a b x e h.0, AllAfter-trans a b xs e h.1)

AllAfter-insert_entry :
    (a e : Entry) (xs : List Entry)
    → before a e ≡ true
    → AllAfter a xs
    → AllAfter a (insert_entry e xs)
unfolding insert_entry AllAfter
AllAfter-insert_entry a e [] k h = (k, tt)
AllAfter-insert_entry a e (x ∷ xs) k h = elim (Bool-cases (before e x)) [
  | inl earlier ↦ rw earlier (k, h)
  | inr late ↦ elim (Bool-cases (before x e)) [
    | inl later ↦ rw (late, later) (h.0, AllAfter-insert_entry a e xs k h.1)
    | inr same ↦ rw (late, same) h
  ]
]

pub insert_entry-IsSorted :
    (e : Entry) (xs : List Entry) → IsSorted xs → IsSorted (insert_entry e xs)
unfolding insert_entry IsSorted AllAfter
insert_entry-IsSorted e [] s = (tt, tt)
insert_entry-IsSorted e (x ∷ xs) s = elim (Bool-cases (before e x)) [
  | inl earlier ↦ rw earlier ((earlier, AllAfter-trans e x xs earlier s.0), s)
  | inr late ↦ elim (Bool-cases (before x e)) [
    | inl later ↦
        rw (late, later) (AllAfter-insert_entry x e xs later s.0, insert_entry-IsSorted e xs s.1)
    | inr same ↦ rw (late, same) s
  ]
]

pub has-insert_entry :
    (y e : Entry) (xs : List Entry) → has y (insert_entry e xs) ≡ same_entry y e || has y xs
unfolding insert_entry
has-insert_entry y e [] = refl
has-insert_entry y e (x ∷ xs) = elim (Bool-cases (before e x)) [
  | inl earlier ↦ rw earlier refl
  | inr late ↦ elim (Bool-cases (before x e)) [
    | inl later ↦ rw (late, later) (ground (arith, has-insert_entry y e xs))
    | inr same ↦ rw (late, same) (ground arith)
  ]
]

first_after : (x y : Entry) (xs : List Entry) → AllAfter x xs → has y xs ≡ true → x.when ≤ y.when
unfolding AllAfter
first_after x y [] a h = absurd (ground arith)
first_after x y (z ∷ zs) a h = elim (Bool-cases (same_entry y z)) [
  | inl here ↦ ground (arith, a.0)
  | inr there ↦ first_after x y zs a.1 (ground arith)
]

-- No entry is earlier than the first.
pub first-le :
    (x y : Entry) (xs : List Entry) → IsSorted (x ∷ xs) → has y (x ∷ xs) ≡ true → x.when ≤ y.when
unfolding IsSorted
first-le x y xs s h = elim (Bool-cases (same_entry y x)) [
  | inl here ↦ ground arith
  | inr there ↦ first_after x y xs s.0 (ground arith)
]

all_pending :
    (now : ℕ) (x : Entry) (xs : List Entry) → now < x.when → AllAfter x xs → AllPending now xs
unfolding AllAfter
all_pending now x [] h k = tt
all_pending now x (y ∷ ys) h k = (ground arith, all_pending now x ys h k.1)

pub split_before_lem :
    (now : ℕ) (xs : List Entry)
    → IsSorted xs
    → AllAddresses xs
    → let cut = split_before (sentry now) xs in
      (cut.0 ++ cut.1 ≡ xs) × AllExpired now cut.0 × AllPending now cut.1 × IsSorted cut.1
unfolding split_before IsSorted
split_before_lem now [] s a = (refl, tt, tt, tt)
split_before_lem now (x ∷ xs) s a = elim (Bool-cases (before x (sentry now))) [
  | inl early ↦
      let rec = split_before_lem now xs s.1 a.1 in
      rw early (ap (λ l. x ∷ l) rec.0, (ground arith, rec.1), rec.2, rec.3)
  | inr late ↦ rw late (refl, tt, (ground arith, all_pending now x xs (ground arith) s.0), s)
]
