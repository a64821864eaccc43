-- ===== src/LogStream/Numbers.antt =====
-- Numbers put into a stream are read back from the text.
use ryan_network_library.Prelude.{
  ℕ, zero, suc, ◌+◌, ◌/◌, ◌%◌, ◌^◌, ◌≤◌, ◌<◌, ◌≡◌, refl, sym, ap, ◌∙◌, inl, inr, Bool, true, false,
  Option, none, some, List, [], ◌∷◌, ◌++◌, map, append_assoc, append-nil, arith, length, take,
  length-append, length-take, ◌==◌, leb→le, Bool-cases, ◌>>=◌, take-append, take-take, ℤ, pos,
  negsuc, neg, magnitude, is_negative, with_sign, quotient,
}
use mathlib.Core.List.{reverse, reverse_aux, reverse-append}
use native.Mathlib.Nat.{pow-suc}
use ryan_network_library.FixedBuffer.{FixedBuffer, IsValid, has_room, add, text, write_lem}
use ryan_network_library.LogStream.{
  digit_at, digit_loop, put_word, sign, put_integer, format_integer, max_numeric_size,
}
use ryan_network_library.LogStream.Digits.{
  low_digits, char_of, read_digits, read_unsigned, read_integer, low_digits-more,
  low_digits_nonempty, read-low_digits, length-low_digits,
}

magnitude-with_sign : (s : Bool) (n : ℕ) → magnitude (with_sign s n) ≡ n
magnitude-with_sign true zero = refl
magnitude-with_sign true (suc n) = refl
magnitude-with_sign false n = refl

-- The table gives the digit of a remainder of either sign.
digit_at-with_sign : (s : Bool) (d : ℕ) → d < 10 → digit_at (with_sign s d) ≡ some (char_of d)
unfolding digit_at
digit_at-with_sign true zero h = refl
digit_at-with_sign false zero h = refl
digit_at-with_sign true (suc zero) h = refl
digit_at-with_sign false (suc zero) h = refl
digit_at-with_sign true (suc (suc zero)) h = refl
digit_at-with_sign false (suc (suc zero)) h = refl
digit_at-with_sign true (suc (suc (suc zero))) h = refl
digit_at-with_sign false (suc (suc (suc zero))) h = refl
digit_at-with_sign true (suc (suc (suc (suc zero)))) h = refl
digit_at-with_sign false (suc (suc (suc (suc zero)))) h = refl
digit_at-with_sign true (suc (suc (suc (suc (suc zero))))) h = refl
digit_at-with_sign false (suc (suc (suc (suc (suc zero))))) h = refl
digit_at-with_sign true (suc (suc (suc (suc (suc (suc zero)))))) h = refl
digit_at-with_sign false (suc (suc (suc (suc (suc (suc zero)))))) h = refl
digit_at-with_sign true (suc (suc (suc (suc (suc (suc (suc zero))))))) h = refl
digit_at-with_sign false (suc (suc (suc (suc (suc (suc (suc zero))))))) h = refl
digit_at-with_sign true (suc (suc (suc (suc (suc (suc (suc (suc zero)))))))) h = refl
digit_at-with_sign false (suc (suc (suc (suc (suc (suc (suc (suc zero)))))))) h = refl
digit_at-with_sign true (suc (suc (suc (suc (suc (suc (suc (suc (suc zero))))))))) h = refl
digit_at-with_sign false (suc (suc (suc (suc (suc (suc (suc (suc (suc zero))))))))) h = refl
digit_at-with_sign s (suc (suc (suc (suc (suc (suc (suc (suc (suc (suc d)))))))))) h =
    absurd (omega arith)

digit_loop-last :
    (fuel : ℕ) (num : ℤ)
    → magnitude num / 10 ≡ 0
    → digit_loop (suc fuel) num ≡ some (map char_of (low_digits 10 (suc fuel) (magnitude num)))
unfolding digit_loop low_digits
digit_loop-last fuel num e =
    let s = is_negative num in
    let n = magnitude num in
    rw (digit_at-with_sign s (n % 10) (omega arith), magnitude-with_sign s (n / 10), e) refl

digit_loop-more :
    (fuel : ℕ) (num : ℤ)
    → (magnitude num / 10 == 0) ≡ false
    → digit_loop (suc fuel) num
      ≡ (digit_loop fuel (quotient num 10) >>= λ ds. some (char_of (magnitude num % 10) ∷ ds))
unfolding digit_loop
digit_loop-more fuel num e =
    let s = is_negative num in
    let n = magnitude num in
    rw (digit_at-with_sign s (n % 10) (omega arith), magnitude-with_sign s (n / 10), e) refl

digit_loop-low_digits :
    (fuel : ℕ) (num : ℤ)
    → magnitude num < 10 ^ suc fuel
    → digit_loop (suc fuel) num ≡ some (map char_of (low_digits 10 (suc fuel) (magnitude num)))
digit_loop-low_digits zero num h = digit_loop-last zero num (omega arith)
digit_loop-low_digits (suc fuel) num h =
    let n = magnitude num in
    let half = magnitude-with_sign (is_negative num) (n / 10) in
    let small : n / 10 < 10 ^ suc fuel = omega (arith, pow-suc 10 (suc fuel)) in
    let rest = digit_loop-low_digits fuel (quotient num 10) (rw half small) in
    elim (Bool-cases (n / 10 == 0)) [
      | inl last ↦ digit_loop-last (suc fuel) num (ground arith)
      | inr more ↦
          rw (digit_loop-more (suc fuel) num more, low_digits-more 10 (suc fuel) n more, rest, half)
            refl
    ]

pub length-reverse_aux : (xs ys : List ℕ) → length (reverse_aux xs ys) ≡ length xs + length ys
length-reverse_aux [] ys = omega arith
length-reverse_aux (x ∷ xs) ys = omega (arith, length-reverse_aux xs (x ∷ ys))

pub length-map : (xs : List ℕ) → length (map char_of xs) ≡ length xs
length-map [] = refl
length-map (x ∷ xs) = ap suc (length-map xs)

pub read_unsigned-digits :
    (base n : ℕ) (l : List ℕ)
    → 0 < length l
    → read_digits base 0 l ≡ some n
    → read_unsigned base l ≡ some n
unfolding read_unsigned
read_unsigned-digits base n [] some_digit e = absurd (omega arith)
read_unsigned-digits base n (c ∷ cs) some_digit e = e

-- Digits alone are no sign.
read_integer-digits :
    (n : ℕ) (l : List ℕ)
    → 0 < length l
    → read_digits 10 0 l ≡ some n
    → read_integer l ≡ some (pos n)
unfolding read_integer read_unsigned read_digits
read_integer-digits n [] some_digit e = absurd (omega arith)
read_integer-digits n (c ∷ cs) some_digit e = elim (Bool-cases (c == b'-')) [
  | inl minus ↦ absurd (
      let same : c ≡ b'-' = ground arith in
      let e' : ◌≡◌ {A = Option ℕ} none (some n) = rw same at e in cc)
  | inr other ↦ rw (other, e) refl
]

decimal :
    (n : ℕ) → n < 2 ^ 64 → read_digits 10 0 (reverse (map char_of (low_digits 10 20 n))) ≡ some n
decimal n h =
    read-low_digits 10 (omega arith) (omega arith) (λ m fuel k. omega (arith, pow-suc 10 fuel))
      (λ m. omega arith) 19 n (omega arith)

read_minus :
    (n : ℕ) (l : List ℕ) → read_unsigned 10 l ≡ some n → read_integer (b'-' ∷ l) ≡ some (neg n)
unfolding read_integer
read_minus n l e = rw e refl

-- The text of a signed number is read as the number.
read-word :
    (num : ℤ)
    → magnitude num < 2 ^ 64
    → read_integer (reverse (map char_of (low_digits 10 20 (magnitude num)) ++ sign num)) ≡ some num
read-word (pos n) h =
    let ds = map char_of (low_digits 10 20 n) in
    rw (append-nil ds) (
      read_integer-digits n (reverse ds)
        (omega (
          arith,
          length-reverse_aux ds [],
          length-map (low_digits 10 20 n),
          low_digits_nonempty 10 19 n,
        ))
        (decimal n h))
read-word (negsuc n) h =
    let ds = map char_of (low_digits 10 20 (suc n)) in
    rw (reverse-append ds (b'-' ∷ [])) (
      read_minus (suc n) (reverse ds) (
        read_unsigned-digits 10 (suc n) (reverse ds)
          (omega (
            arith,
            length-reverse_aux ds [],
            length-map (low_digits 10 20 (suc n)),
            low_digits_nonempty 10 19 (suc n),
          ))
          (decimal (suc n) h)))

length-word :
    (base fuel n : ℕ) (sign : List ℕ)
    → length (reverse (map char_of (low_digits base fuel n) ++ sign)) ≤ fuel + length sign
length-word base fuel n sign =
    let ds = map char_of (low_digits base fuel n) in
    omega (
      arith,
      length-reverse_aux (ds ++ sign) [],
      length-append ds sign,
      length-map (low_digits base fuel n),
      length-low_digits base fuel n,
    )

pub put_word_lem :
    (word : List ℕ) (b : FixedBuffer)
    → IsValid b
    → has_room max_numeric_size b ≡ true
    → length word < 48
    → (b' : FixedBuffer) × (put_word word b ≡ some b')
      × IsValid b'
      × (text b' ≡ text b ++ word)
      × (length b'.data_ ≡ length b.data_)
unfolding add
put_word_lem word b v room short =
    let n = length-append word (0 ∷ []) in
    let fits : b.curr + 48 ≤ length b.data_ = leb→le (b.curr + 48) (length b.data_) room in
    let (b', e, c, l, t) = write_lem (word ++ (0 ∷ [])) b v (omega (arith, n)) in
    (
      record b' { curr = b'.curr + length word },
      rw e refl,
      omega (arith, c, l, v.size),
      rw c (
          sym (
            take-take (b.curr + length word) (b.curr + length (word ++ (0 ∷ []))) b'.data_
              (omega (arith, n)))
          ∙ ap (take (b.curr + length word)) (t ∙ sym (append_assoc (text b) word (0 ∷ [])))
          ∙ take-append (b.curr + length word) (text b ++ word) (0 ∷ [])
              (omega (arith, length-append (text b) word, length-take b.curr b.data_, v.within))),
      l,
    )

-- Any number of at most 64 bits, signed or not, put into a valid buffer with room for 48 bytes: no
-- access outside the table or the storage; the text grows by a word of 1 to 21 bytes that is read as
-- the number, and the storage keeps its size. Without the room nothing changes.
pub read_integer-format_integer :
    (num : ℤ) (b : FixedBuffer)
    → IsValid b
    → magnitude num < 2 ^ 64
    → (has_room max_numeric_size b ≡ true
        → (b' : FixedBuffer) × (word : List ℕ) × (format_integer num b ≡ some b')
          × IsValid b'
          × (text b' ≡ text b ++ word)
          × (read_integer word ≡ some num)
          × (length word ≤ 21)
          × (length b'.data_ ≡ length b.data_))
      × (has_room max_numeric_size b ≡ false → format_integer num b ≡ some b)
unfolding format_integer put_integer
read_integer-format_integer num b v h = (
  λ room.
      let ds = map char_of (low_digits 10 20 (magnitude num)) in
      let word = reverse (ds ++ sign num) in
      let short : length word ≤ 21 = ground (arith, length-word 10 20 (magnitude num) (sign num)) in
      let (b', e, v', t, l) = put_word_lem word b v room (omega arith) in
      (
        b',
        word,
        rw (room, digit_loop-low_digits 19 num (omega arith)) e,
        v',
        t,
        read-word num h,
        short,
        l,
      ),
  λ full. rw full refl,
)
