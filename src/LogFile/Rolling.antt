-- ===== src/LogFile/Rolling.antt =====
-- LogFile: the files hold what was appended, in order, whenever the log rolls.
use ryan_network_library.Prelude.{
  ℕ, ◌+◌, ◌-◌, ◌≤◌, ◌<◌, ◌≡◌, refl, sym, ◌⊎◌, inl, inr, Option, none, some, List, [], ◌∷◌, ◌++◌,
  append_assoc, append-nil, arith, length, length-append, ltb, leb, ◌==◌, ltb→lt, lt→ltb,
  ltb_false→le, Bool-cases,
}
use ryan_network_library.LogFile.{
  FileUtil, LogFile, roll_file, check_roll, append_in_lock, flush_file, flush, open_file, Call,
  append_call, flush_call, run, new_log_file, period,
}
use ryan_network_library.LogFile.Writing.{sum, append_ends}

-- The bytes of the closed files, from the first to the last.
abbrev pub closed_bytes : List FileUtil → List ℕ
closed_bytes [] = []
closed_bytes (f ∷ fs) = closed_bytes fs ++ f.content

abbrev pub file_bytes : Option FileUtil → List ℕ
file_bytes none = []
file_bytes (some f) = f.content

abbrev pub held : LogFile → List ℕ
held l = closed_bytes l.closed ++ file_bytes l.file_

-- The files were opened before `time`, each in a second of its own.
abbrev pub IsBefore : ℕ → List FileUtil → Type 0
IsBefore time [] = Unit {0}
IsBefore time (f ∷ fs) = (f.opened < time) × IsBefore f.opened fs

-- There is a file, it counts its bytes, and its name has the time of the last roll.
abbrev pub IsCounted : ℕ → Option FileUtil → Type 0
IsCounted time none = ⊥
IsCounted time (some f) = (f.written_bytes_ ≡ length f.content) × (f.opened ≡ time)

abbrev pub IsSmall : ℕ → Option FileUtil → Type 0
IsSmall size none = ⊥
IsSmall size (some f) = f.written_bytes_ ≤ size

pub record IsValid (l : LogFile) : Type 0 where
  pub current : IsCounted l.last_roll_ l.file_
  pub names : IsBefore l.last_roll_ l.closed

file_there : (time : ℕ) (o : Option FileUtil) → IsCounted time o → (f : FileUtil) × (o ≡ some f)
file_there time none h = absurd h
file_there time (some f) h = (f, refl)

-- A log file after a roll: nothing is lost, and the file is new unless the clock stands.
abbrev Kept : ℕ → LogFile → LogFile → Type 0
Kept now l l' =
    IsValid l'
    × (held l' ≡ held l)
    × (l'.roll_size_ ≡ l.roll_size_)
    × (IsSmall l.roll_size_ l'.file_ ⊎ (now ≤ l'.last_roll_))

roll_file-Kept :
    (now : ℕ) (f : FileUtil) (l : LogFile)
    → l.file_ ≡ some f
    → IsValid l
    → Kept now l (roll_file now l).1
unfolding roll_file open_file
roll_file-Kept now f l here v =
    let (count, name) = rw here at v.current in
    elim (Bool-cases (ltb l.last_roll_ now)) [
      | inl e ↦
          rw (e, here)
            (
              record {
                current = (refl, refl);
                names = (omega (arith, name, ltb→lt l.last_roll_ now e), rw name v.names);
              },
              append-nil (closed_bytes l.closed ++ f.content),
              refl,
              inl (omega arith),
            )
      | inr e ↦ rw e (v, refl, refl, inr (ltb_false→le l.last_roll_ now e))
    ]

check_roll-Kept :
    (now rolled : ℕ) (f : FileUtil) (l : LogFile)
    → l.file_ ≡ some f
    → IsValid l
    → Kept rolled l (check_roll now rolled f l)
unfolding check_roll flush
check_roll-Kept now rolled f l here v =
    let same : IsValid (record l { count_ = 0 }) = record {
      current = v.current;
      names = v.names;
    } in
    elim (Bool-cases (ltb l.roll_size_ f.written_bytes_)) [
      | inl e ↦ rw e (roll_file-Kept rolled f l here v)
      | inr small ↦
          let fits = ltb_false→le l.roll_size_ f.written_bytes_ small in
          let still : IsSmall l.roll_size_ l.file_ = rw here fits in
          elim (Bool-cases (leb l.check_every_n_ (l.count_ + 1))) [
            | inr early ↦
                rw (small, early)
                  (record { current = v.current; names = v.names }, refl, refl, inl still)
            | inl due ↦ elim (Bool-cases (period now == l.start_of_period_)) [
              | inr over ↦
                  rw (small, due, over)
                    (roll_file-Kept rolled f (record l { count_ = 0 }) here same)
              | inl e ↦ elim (Bool-cases (ltb l.flush_interval_ (now - l.last_flush_))) [
                | inl late ↦
                    rw (small, due, e, late, here)
                      (
                        record { current = (rw here at v.current); names = v.names },
                        refl,
                        refl,
                        inl fits,
                      )
                | inr soon ↦ rw (small, due, e, soon) (same, refl, refl, inl still)
              ]
            ]
          ]
    ]

-- From a valid log file, and with a disk that takes the bytes, an append finds a file and ends. The
-- files then hold what they held and the bytes behind it. The last file is no longer than the limit
-- then, or the clock of the roll has not left the second in which it was opened.
pub append_in_lock-IsValid :
    (results bytes : List ℕ) (now rolled : ℕ) (l : LogFile)
    → length bytes ≤ sum results
    → IsValid l
    → (l' : LogFile) × (append_in_lock results bytes now rolled l ≡ some l')
      × IsValid l'
      × (held l' ≡ held l ++ bytes)
      × (l'.roll_size_ ≡ l.roll_size_)
      × (IsSmall l.roll_size_ l'.file_ ⊎ (rolled ≤ l'.last_roll_))
unfolding append_in_lock
append_in_lock-IsValid results bytes now rolled l enough v =
    let (f, here) = file_there l.last_roll_ l.file_ v.current in
    let (count, name) = rw here at v.current in
    let (rest, e) = (append_ends results bytes f).0 enough in
    let f' = record f {
      written_bytes_ = f.written_bytes_ + length bytes;
      content = f.content ++ bytes;
    } in
    let l1 = record l { file_ = some f' } in
    let w : IsValid l1 = record {
      current = (omega (arith, count, length-append f.content bytes), name);
      names = v.names;
    } in
    let (x, h, r, s) = check_roll-Kept now rolled f' l1 refl w in
    (
      check_roll now rolled f' l1,
      rw (here, e) refl,
      x,
      rw (h, here) (sym (append_assoc (closed_bytes l.closed) f.content bytes)),
      r,
      s,
    )

-- The disk takes the bytes of every call.
abbrev pub AllTaken : List Call → Type 0
AllTaken [] = Unit {0}
AllTaken (append_call results bytes now rolled ∷ cs) = (length bytes ≤ sum results) × AllTaken cs
AllTaken (flush_call ∷ cs) = AllTaken cs

-- The bytes of the calls.
abbrev pub appended : List Call → List ℕ
appended [] = []
appended (append_call results bytes now rolled ∷ cs) = bytes ++ appended cs
appended (flush_call ∷ cs) = appended cs

pub flush_file-IsValid :
    (l : LogFile)
    → IsValid l
    → (l' : LogFile) × (flush_file l ≡ some l') × IsValid l' × (held l' ≡ held l)
unfolding flush_file flush
flush_file-IsValid l v =
    let (f, here) = file_there l.last_roll_ l.file_ v.current in
    (
      record l { file_ = some (record f { flushed = length f.content }) },
      rw here refl,
      record { current = (rw here at v.current); names = v.names },
      rw here refl,
    )

-- From a valid log file, and with a disk that takes the bytes of every call, any appends and flushes
-- find a file and end, whatever the clock says. The files were opened in different seconds, each before
-- the next, and hold in this order what they held and then the bytes of the calls.
pub run_appends :
    (cs : List Call) (l : LogFile)
    → AllTaken cs
    → IsValid l
    → (l' : LogFile) × (run cs l ≡ some l') × IsValid l' × (held l' ≡ held l ++ appended cs)
unfolding run
run_appends [] l enough v = (l, refl, v, sym (append-nil (held l)))
run_appends (append_call results bytes now rolled ∷ cs) l (enough, more) v =
    let (m, e, w, h, _, _) = append_in_lock-IsValid results bytes now rolled l enough v in
    let (n, f, x, k) = run_appends cs m more w in
    (n, rw e f, x, rw (k, h) (append_assoc (held l) bytes (appended cs)))
run_appends (flush_call ∷ cs) l more v =
    let (m, e, w, h) = flush_file-IsValid l v in
    let (n, f, x, k) = run_appends cs m more w in (n, rw e f, x, rw (k, h) refl)

-- The constructor opens a file, unless the clock reads 0.
pub new_log_file-IsValid :
    (now roll_size flush_interval check_every_n : ℕ)
    → 0 < now
    → IsValid (new_log_file now roll_size flush_interval check_every_n)
unfolding new_log_file roll_file open_file
new_log_file-IsValid now roll_size flush_interval check_every_n late =
    let e = lt→ltb 0 now late in
    rw (new_log_file, e) (record { current = (refl, refl); names = tt })
