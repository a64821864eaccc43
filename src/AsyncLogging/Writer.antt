-- ===== src/AsyncLogging/Writer.antt =====
-- The writing thread: every part of its loop finds the buffers that it needs, and loses no line.
use ryan_network_library.Prelude.{
  ℕ, zero, suc, ◌+◌, ◌-◌, ◌≤◌, ◌<◌, ◌≡◌, refl, subst, inl, inr, true, Option, none, some, List, [],
  ◌∷◌, ◌++◌, append_assoc, append-nil, arith, length, get_elem?, take, length-append, length-take,
  Bool-cases, get_elem?-some,
}
use ryan_network_library.FixedBuffer.{FixedBuffer, reset, text}
use ryan_network_library.AsyncLogging.{
  is_null, AsyncLogging, Phase, waiting, collected, output, collect, put_out, take_back, refill_one,
  refill, advance_writer,
}
use ryan_network_library.AsyncLogging.Order.{
  texts, texts-append, text_of, logged, IsSized, IsFresh, IsFreshOrNull, AllSized, IsValid,
  used_some, AllSized-append,
}

module _ (size : ℕ) where
  fresh_some :
      (o : Option FixedBuffer)
      → IsFresh size o
      → (b : FixedBuffer) × (o ≡ some b) × IsSized size b × (b.curr ≡ 0)
  fresh_some none h = absurd h
  fresh_some (some b) h = (b, refl, h.0, h.1)

  pub collect-IsValid :
      (a : AsyncLogging)
      → IsValid size a
      → a.phase ≡ waiting
      → IsFresh size a.new_buffer1 × IsFresh size a.new_buffer2 × (a.buffers_to_write ≡ [])
      → (a' : AsyncLogging) × (collect a ≡ some a') × IsValid size a' × (logged a' ≡ logged a)
  unfolding collect
  collect-IsValid a v ph (f1, f2, none_left) =
      let (c, here, s) = used_some size a.current_buffer v.current in
      let (b1, h1, s1, z1) = fresh_some a.new_buffer1 f1 in
      let (b2, h2, s2, z2) = fresh_some a.new_buffer2 f2 in
      let n = length-append a.buffers (c ∷ []) in
      let empty : text b1 ≡ [] = rw z1 refl in
      elim (Bool-cases (is_null a.next_buffer)) [
        | inl taken ↦ (
          record a {
            phase = collected;
            current_buffer = some b1;
            next_buffer = some b2;
            buffers = [];
            new_buffer1 = none;
            new_buffer2 = none;
            buffers_to_write = a.buffers ++ (c ∷ []);
          },
          rw (here, taken, h1, h2, none_left) refl,
          record {
            current = s1;
            next = (s2, z2);
            full = tt;
            used = λ e. absurd cc;
            writer = (
              refl,
              tt,
              AllSized-append size a.buffers c v.full s,
              omega (arith, n),
              λ e. let u = v.used taken in omega (arith, n),
            );
          },
          rw
              (
                ph,
                here,
                empty,
                texts-append a.buffers (c ∷ []),
                append-nil (text c),
                append-nil (texts a.buffers ++ text c),
              )
              refl,
        )
        | inr there ↦ (
          record a {
            phase = collected;
            current_buffer = some b1;
            buffers = [];
            new_buffer1 = none;
            new_buffer2 = some b2;
            buffers_to_write = a.buffers ++ (c ∷ []);
          },
          rw (here, there, h1, h2, none_left) refl,
          record {
            current = s1;
            next = v.next;
            full = tt;
            used = λ e. absurd (ground arith);
            writer = (
              refl,
              (s2, z2),
              AllSized-append size a.buffers c v.full s,
              omega (arith, n),
              λ e. absurd cc,
            );
          },
          rw
              (
                ph,
                here,
                empty,
                texts-append a.buffers (c ∷ []),
                append-nil (text c),
                append-nil (texts a.buffers ++ text c),
              )
              refl,
        )
      ]

  pub put_out-IsValid :
      (a : AsyncLogging)
      → IsValid size a
      → a.phase ≡ collected
      → (a.new_buffer1 ≡ none)
        × IsFreshOrNull size a.new_buffer2
        × AllSized size a.buffers_to_write
        × (0 < length a.buffers_to_write)
        × (is_null a.new_buffer2 ≡ true → 1 < length a.buffers_to_write)
      → IsValid size (put_out a) × (logged (put_out a) ≡ logged a)
  unfolding put_out
  put_out-IsValid a v ph w = (
    record { current = v.current; next = v.next; full = v.full; used = v.used; writer = w },
    rw (ph, texts-append a.written a.buffers_to_write)
        (append_assoc (texts a.written) (texts a.buffers_to_write)
          (texts a.buffers ++ text_of a.current_buffer)),
  )

  AllSized-take : (n : ℕ) (bs : List FixedBuffer) → AllSized size bs → AllSized size (take n bs)
  AllSized-take zero bs h = tt
  AllSized-take (suc n) [] h = tt
  AllSized-take (suc n) (b ∷ bs) h = (h.0, AllSized-take n bs h.1)

  IsSized-get_elem? :
      (bs : List FixedBuffer) (i : ℕ) (b : FixedBuffer)
      → AllSized size bs
      → get_elem? bs i ≡ some b
      → IsSized size b
  IsSized-get_elem? [] i b h e = absurd cc
  IsSized-get_elem? (x ∷ bs) zero b h e =
      let same : x ≡ b = cc in subst (λ y. IsSized size y) same h.0
  IsSized-get_elem? (x ∷ bs) (suc i) b h e = IsSized-get_elem? bs i b h.1 e

  refill_one-IsFresh :
      (o : Option FixedBuffer) (bs : List FixedBuffer)
      → IsFreshOrNull size o
      → AllSized size bs
      → (is_null o ≡ true → 0 < length bs)
      → (b : FixedBuffer) × (rest : List FixedBuffer) × (refill_one o bs ≡ some (some b, rest))
        × IsFresh size (some b)
        × AllSized size rest
        × (length bs ≤ length rest + 1)
  unfolding refill_one take_back reset
  refill_one-IsFresh none bs h k some_left =
      let positive = some_left refl in
      let (b, e) = get_elem?-some bs (length bs - 1) (omega arith) in
      let s = IsSized-get_elem? bs (length bs - 1) b k e in
      (
        record b { curr = 0 },
        take (length bs - 1) bs,
        rw e refl,
        (
          record { valid = record { within = omega arith; size = s.valid.size }; sized = s.sized },
          refl,
        ),
        AllSized-take (length bs - 1) bs k,
        omega (arith, length-take (length bs - 1) bs),
      )
  refill_one-IsFresh (some b) bs h k some_left = (b, bs, refl, h, k, omega arith)

  pub refill-IsValid :
      (a : AsyncLogging)
      → IsValid size a
      → a.phase ≡ output
      → (a.new_buffer1 ≡ none)
        × IsFreshOrNull size a.new_buffer2
        × AllSized size a.buffers_to_write
        × (0 < length a.buffers_to_write)
        × (is_null a.new_buffer2 ≡ true → 1 < length a.buffers_to_write)
      → (a' : AsyncLogging) × (refill a ≡ some a') × IsValid size a' × (logged a' ≡ logged a)
  unfolding refill
  refill-IsValid a v ph (gone, f2, sized, some_left, two_left) =
      let bs = take 2 a.buffers_to_write in
      let n = length-take 2 a.buffers_to_write in
      let (b1, rest, e1, k1, sized1, n1) =
        refill_one-IsFresh none bs tt (AllSized-take 2 a.buffers_to_write sized)
          (λ e. omega (arith, n)) in
      let (b2, rest', e2, k2, sized2, n2) =
        refill_one-IsFresh a.new_buffer2 rest f2 sized1
          (λ e. let two = two_left e in omega (arith, n, n1)) in
      (
        record a {
          phase = waiting;
          new_buffer1 = some b1;
          new_buffer2 = some b2;
          buffers_to_write = [];
        },
        rw (gone, e1, e2) refl,
        record {
          current = v.current;
          next = v.next;
          full = v.full;
          used = v.used;
          writer = (k1, k2, refl);
        },
        rw ph refl,
      )

  pub advance_writer-IsValid :
      (a : AsyncLogging)
      → IsValid size a
      → (a' : AsyncLogging) × (advance_writer a ≡ some a')
        × IsValid size a'
        × (logged a' ≡ logged a)
  unfolding advance_writer
  advance_writer-IsValid a v = go a.phase refl
    where
      go :
          (p : Phase)
          → a.phase ≡ p
          → (a' : AsyncLogging) × (advance_writer a ≡ some a')
            × IsValid size a'
            × (logged a' ≡ logged a)
      go waiting e =
          let (a', f, r, k) = collect-IsValid a v e (rw e at v.writer) in (a', rw e f, r, k)
      go collected e =
          let (r, k) = put_out-IsValid a v e (rw e at v.writer) in (put_out a, rw e refl, r, k)
      go output e =
          let (a', f, r, k) = refill-IsValid a v e (rw e at v.writer) in (a', rw e f, r, k)
