-- ===== src/LogStream/Digits.antt =====
-- Digits of a number in a base, and how a text of digits is read.
use ryan_network_library.Prelude.{
  ℕ, zero, suc, ◌+◌, ◌-◌, ◌*◌, ◌/◌, ◌%◌, ◌^◌, ◌≤◌, ◌<◌, ◌≡◌, refl, ap, ◌∙◌, subst, inl, inr, false,
  not, ◌&&◌, Option, none, some, List, [], ◌∷◌, ◌++◌, map, arith, length, ltb, leb, ◌==◌,
  if◌then◌else◌, Bool-cases, Option-cases, ◌>>=◌, ℤ, pos, neg,
}
use mathlib.Core.List.{reverse, reverse-cons}
use native.Mathlib.Nat.{mod-add-div, div-add-mod', pow-zero}

-- The digits, lowest first; the highest is not followed by more.
unfoldable pub low_digits : ℕ → ℕ → ℕ → List ℕ
low_digits base zero n = []
low_digits base (suc fuel) n =
    let rest = low_digits base fuel (n / base) in n % base ∷ (if n / base == 0 then [] else rest)

-- '0' to '9', then 'A' to 'F'.
abbrev pub char_of : ℕ → ℕ
char_of d = if ltb d 10 then d + 48 else d + 55

abbrev pub digit_of_char : ℕ → ℕ → Option ℕ
digit_of_char base c =
    let d = if leb 48 c && leb c 57 then c - 48 else c - 55 in
    if leb 48 c && ltb d base && not (ltb 57 c && ltb c 65) then some d else none

-- A text is read from its highest digit on.
unfoldable pub read_digits : ℕ → ℕ → List ℕ → Option ℕ
read_digits base acc [] = some acc
read_digits base acc (c ∷ cs) = do d ← digit_of_char base c; read_digits base (acc * base + d) cs

-- A number without digits is none.
unfoldable pub read_unsigned : ℕ → List ℕ → Option ℕ
unfolding read_digits
read_unsigned base [] = none
read_unsigned base (c ∷ cs) = read_digits base 0 (c ∷ cs)

unfoldable pub read_integer : List ℕ → Option ℤ
unfolding read_unsigned
read_integer [] = none
read_integer (c ∷ cs) =
    let negative : Option ℤ = (do n ← read_unsigned 10 cs; some (neg n)) in
    let positive : Option ℤ = (do n ← read_unsigned 10 (c ∷ cs); some (pos n)) in
    if c == b'-' then negative else positive

pub digit_of_char-char_of :
    (base d : ℕ) → base ≤ 16 → d < base → digit_of_char base (char_of d) ≡ some d
digit_of_char-char_of base d h k = ground arith

pub read_digits-append :
    (base acc n : ℕ) (xs : List ℕ) (d : ℕ)
    → base ≤ 16
    → d < base
    → read_digits base acc xs ≡ some n
    → read_digits base acc (xs ++ (char_of d ∷ [])) ≡ some (n * base + d)
unfolding read_digits
read_digits-append base acc n [] d h k e =
    let same : acc ≡ n = cc in rw (digit_of_char-char_of base d h k, same) refl
read_digits-append base acc n (x ∷ xs) d h k e = elim (Option-cases (digit_of_char base x)) [
  | inl bad ↦ absurd (let e' : ◌≡◌ {A = Option ℕ} none (some n) = rw bad at e in cc)
  | inr (d0, good) ↦ rw good (read_digits-append base (acc * base + d0) n xs d h k (rw good at e))
]

module _ (base : ℕ) where
  pub low_digits-last : (fuel n : ℕ) → n / base ≡ 0 → low_digits base (suc fuel) n ≡ n ∷ []
  unfolding low_digits
  low_digits-last fuel n e =
      let back = mod-add-div n base in
      let product : base * (n / base) ≡ 0 = rw e (omega arith) in
      let whole : n % base ≡ n = omega arith in rw (e, whole) refl

  pub low_digits-more :
      (fuel n : ℕ)
      → (n / base == 0) ≡ false
      → low_digits base (suc fuel) n ≡ n % base ∷ low_digits base fuel (n / base)
  unfolding low_digits
  low_digits-more fuel n e = rw e refl

  pub length-low_digits : (fuel n : ℕ) → length (low_digits base fuel n) ≤ fuel
  unfolding low_digits
  length-low_digits zero n = omega arith
  length-low_digits (suc fuel) n = ground (arith, length-low_digits fuel (n / base))

  pub low_digits_nonempty : (fuel n : ℕ) → 0 < length (low_digits base (suc fuel) n)
  unfolding low_digits
  low_digits_nonempty fuel n = omega arith

module _ (base : ℕ) (small : base ≤ 16) (some_base : 0 < base)
    (quotient_lt : (n fuel : ℕ) → n < base ^ suc fuel → n / base < base ^ fuel)
    (remainder_lt : (n : ℕ) → n % base < base) where
  read_one : (d : ℕ) → d < base → read_digits base 0 (char_of d ∷ []) ≡ some d
  unfolding read_digits
  read_one d h = rw (digit_of_char-char_of base d small h) (ap some (omega arith))

  read_last :
      (fuel n : ℕ)
      → n / base ≡ 0
      → read_digits base 0 (reverse (map char_of (low_digits base (suc fuel) n))) ≡ some n
  read_last fuel n e =
      let back = mod-add-div n base in
      let product : base * (n / base) ≡ 0 = rw e (omega arith) in
      let whole : n % base ≡ n = omega arith in
      rw (low_digits-last base fuel n e) (read_one n (subst (λ d. d < base) whole (remainder_lt n)))

  -- The digits, turned round, are read as the number.
  pub read-low_digits :
      (fuel n : ℕ)
      → n < base ^ suc fuel
      → read_digits base 0 (reverse (map char_of (low_digits base (suc fuel) n))) ≡ some n
  read-low_digits zero n h =
      read_last zero n (let q = quotient_lt n zero h in let o = pow-zero base in omega arith)
  read-low_digits (suc fuel) n h = elim (Bool-cases (n / base == 0)) [
    | inl last ↦ read_last (suc fuel) n (ground arith)
    | inr more ↦
        rw
          (
            low_digits-more base (suc fuel) n more,
            reverse-cons (char_of (n % base)) (map char_of (low_digits base (suc fuel) (n / base))),
          )
          (read_digits-append base 0 (n / base)
              (reverse (map char_of (low_digits base (suc fuel) (n / base)))) (n % base) small
              (remainder_lt n) (read-low_digits fuel (n / base) (quotient_lt n (suc fuel) h))
            ∙ ap some (div-add-mod' n base))
  ]
