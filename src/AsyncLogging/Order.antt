-- ===== src/AsyncLogging/Order.antt =====
-- No line is lost, doubled or moved between the threads that log and the file.
use ryan_network_library.Prelude.{
  ℕ, ◌+◌, ◌^◌, ◌<◌, ◌≡◌, refl, sym, ◌∙◌, inl, inr, true, Option, none, some, List, [], ◌∷◌, ◌++◌,
  append_assoc, append-nil, arith, length, length-append, lt→ltb, Bool-cases,
}
use ryan_network_library.FixedBuffer as Fixed
use ryan_network_library.FixedBuffer.{
  FixedBuffer, new, append, reset, has_more_than, text, append_bounded,
}
use ryan_network_library.AsyncLogging.{
  is_null, AsyncLogging, waiting, collected, output, append_line, fresh_buffer, Event, log, advance,
}

-- The text of some buffers.
abbrev pub texts : List FixedBuffer → List ℕ
texts [] = []
texts (b ∷ bs) = text b ++ texts bs

pub texts-append : (xs ys : List FixedBuffer) → texts (xs ++ ys) ≡ texts xs ++ texts ys
texts-append [] ys = refl
texts-append (b ∷ bs) ys =
    rw (texts-append bs ys) (sym (append_assoc (text b) (texts bs) (texts ys)))

abbrev pub text_of : Option FixedBuffer → List ℕ
text_of none = []
text_of (some b) = text b

-- The buffers that the writing thread has taken and not put out.
abbrev pub pending : AsyncLogging → List FixedBuffer
pending a = elim a.phase [ waiting ↦ [] | collected ↦ a.buffers_to_write | output ↦ [] ]

-- All that was logged, in order.
abbrev pub logged : AsyncLogging → List ℕ
logged a = texts a.written ++ (texts (pending a) ++ (texts a.buffers ++ text_of a.current_buffer))

-- The size of the buffers is that of a class; `lines` of an event are the bytes that it logs.
abbrev pub bytes_of : List Event → List ℕ
bytes_of [] = []
bytes_of (log line ∷ es) = line ++ bytes_of es
bytes_of (advance ∷ es) = bytes_of es

module _ (size : ℕ) where
  pub record IsSized (b : FixedBuffer) : Type 0 where
    pub valid : Fixed.IsValid b
    pub sized : length b.data_ ≡ size

  -- An empty buffer.
  abbrev pub IsFresh : Option FixedBuffer → Type 0
  IsFresh none = ⊥
  IsFresh (some b) = IsSized b × (b.curr ≡ 0)

  abbrev pub IsFreshOrNull : Option FixedBuffer → Type 0
  IsFreshOrNull none = Unit {0}
  IsFreshOrNull (some b) = IsSized b × (b.curr ≡ 0)

  abbrev pub IsUsed : Option FixedBuffer → Type 0
  IsUsed none = ⊥
  IsUsed (some b) = IsSized b

  abbrev pub AllSized : List FixedBuffer → Type 0
  AllSized [] = Unit {0}
  AllSized (b ∷ bs) = IsSized b × AllSized bs

  -- The writing thread has two empty buffers in front of the lock; behind it, it has taken a buffer for
  -- each that it gave away.
  abbrev pub WriterReady : AsyncLogging → Type 0
  WriterReady a = elim a.phase [
    | waiting ↦ IsFresh a.new_buffer1 × IsFresh a.new_buffer2 × (a.buffers_to_write ≡ [])
    | _ ↦
        (a.new_buffer1 ≡ none)
        × IsFreshOrNull a.new_buffer2
        × AllSized a.buffers_to_write
        × (0 < length a.buffers_to_write)
        × (is_null a.new_buffer2 ≡ true → 1 < length a.buffers_to_write)
  ]

  pub record IsValid (a : AsyncLogging) : Type 0 where
    pub current : IsUsed a.current_buffer
    pub next : IsFreshOrNull a.next_buffer
    pub full : AllSized a.buffers
    pub used : is_null a.next_buffer ≡ true → 0 < length a.buffers
    pub writer : WriterReady a

  pub used_some : (o : Option FixedBuffer) → IsUsed o → (b : FixedBuffer) × (o ≡ some b) × IsSized b
  used_some none h = absurd h
  used_some (some b) h = (b, refl, h)

  pub AllSized-append :
      (bs : List FixedBuffer) (b : FixedBuffer)
      → AllSized bs
      → IsSized b
      → AllSized (bs ++ (b ∷ []))
  AllSized-append [] b h k = (k, tt)
  AllSized-append (x ∷ bs) b h k = (h.0, AllSized-append bs b h.1 k)

  -- A buffer that takes a line.
  put_line :
      (line : List ℕ) (b : FixedBuffer)
      → IsSized b
      → length line < 2 ^ 63
      → has_more_than (length line) b ≡ true
      → (b' : FixedBuffer) × (append line b ≡ some b') × IsSized b' × (text b' ≡ text b ++ line)
  put_line line b s small room =
      let (b', e, v, n, t, _) = append_bounded line b s.valid small in
      (b', e, record { valid = v; sized = n ∙ s.sized }, rw room at t)

  module _ (memory : List ℕ) (whole : length memory ≡ size) (int_size : size < 2 ^ 31) where
    fresh_buffer-IsSized :
        (o : Option FixedBuffer)
        → IsFreshOrNull o
        → IsSized (fresh_buffer o memory) × ((fresh_buffer o memory).curr ≡ 0)
    unfolding new
    fresh_buffer-IsSized none h = (
      record {
        valid = record { within = omega arith; size = omega (arith, whole, int_size) };
        sized = whole;
      },
      refl,
    )
    fresh_buffer-IsSized (some b) h = h

    pub append_line-IsValid :
        (line : List ℕ) (a : AsyncLogging)
        → IsValid a
        → length line < size
        → (a' : AsyncLogging) × (append_line memory line a ≡ some a')
          × IsValid a'
          × (logged a' ≡ logged a ++ line)
    unfolding append_line
    append_line-IsValid line a v fits =
        let (c, here, s) = used_some a.current_buffer v.current in
        let before = texts a.written in
        let taken = texts (pending a) in
        elim (Bool-cases (has_more_than (length line) c)) [
          | inl room ↦
              let (c', e, s', t) = put_line line c s (omega arith) room in
              (
                record a { current_buffer = some c' },
                rw (here, room, e) refl,
                record {
                  current = s';
                  next = v.next;
                  full = v.full;
                  used = v.used;
                  writer = v.writer;
                },
                rw
                    (
                      here,
                      t,
                      append_assoc before (taken ++ (texts a.buffers ++ text c)) line,
                      append_assoc taken (texts a.buffers ++ text c) line,
                      append_assoc (texts a.buffers) (text c) line,
                    )
                    refl,
              )
          | inr full ↦
              let (f, zero_at) = fresh_buffer-IsSized a.next_buffer v.next in
              let n = fresh_buffer a.next_buffer memory in
              let room : has_more_than (length line) n ≡ true =
                lt→ltb (n.curr + length line) (length n.data_) (omega (arith, f.sized)) in
              let (c', e, s', t) = put_line line n f (omega arith) room in
              let empty : text n ≡ [] = rw zero_at refl in
              (
                record a {
                  current_buffer = some c';
                  next_buffer = none;
                  buffers = a.buffers ++ (c ∷ []);
                },
                rw (here, full, e) refl,
                record {
                  current = s';
                  next = tt;
                  full = AllSized-append a.buffers c v.full s;
                  used = λ e. omega (arith, length-append a.buffers (c ∷ []));
                  writer = v.writer;
                },
                rw
                    (
                      here,
                      t,
                      empty,
                      texts-append a.buffers (c ∷ []),
                      append-nil (text c),
                      append_assoc before (taken ++ (texts a.buffers ++ text c)) line,
                      append_assoc taken (texts a.buffers ++ text c) line,
                    )
                    refl,
              )
        ]
