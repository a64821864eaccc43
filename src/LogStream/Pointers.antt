-- ===== src/LogStream/Pointers.antt =====
-- Addresses put into a stream are read back from the text.
use ryan_network_library.Prelude.{
  ℕ, zero, suc, ◌/◌, ◌%◌, ◌^◌, ◌<◌, ◌≡◌, refl, inl, inr, true, false, some, List, [], ◌∷◌, ◌++◌,
  map, arith, get_elem?, ◌==◌, Bool-cases, ◌>>=◌,
}
use mathlib.Core.List.{reverse}
use native.Mathlib.Nat.{pow-suc}
use ryan_network_library.FixedBuffer.{FixedBuffer, IsValid, has_room, text}
use ryan_network_library.LogStream.{max_numeric_size, digits_hex, hex_loop, put_hex, put_pointer}
use ryan_network_library.LogStream.Digits.{
  low_digits, char_of, read_digits, read_unsigned, low_digits-more, low_digits_nonempty,
  read-low_digits, length-low_digits,
}
use ryan_network_library.LogStream.Numbers.{
  length-reverse_aux, length-map, read_unsigned-digits, put_word_lem,
}

hex_digit : (d : ℕ) → d < 16 → get_elem? digits_hex d ≡ some (char_of d)
hex_digit zero h = refl
hex_digit (suc zero) h = refl
hex_digit (suc (suc zero)) h = refl
hex_digit (suc (suc (suc zero))) h = refl
hex_digit (suc (suc (suc (suc zero)))) h = refl
hex_digit (suc (suc (suc (suc (suc zero))))) h = refl
hex_digit (suc (suc (suc (suc (suc (suc zero)))))) h = refl
hex_digit (suc (suc (suc (suc (suc (suc (suc zero))))))) h = refl
hex_digit (suc (suc (suc (suc (suc (suc (suc (suc zero)))))))) h = refl
hex_digit (suc (suc (suc (suc (suc (suc (suc (suc (suc zero))))))))) h = refl
hex_digit (suc (suc (suc (suc (suc (suc (suc (suc (suc (suc zero)))))))))) h = refl
hex_digit (suc (suc (suc (suc (suc (suc (suc (suc (suc (suc (suc zero))))))))))) h = refl
hex_digit (suc (suc (suc (suc (suc (suc (suc (suc (suc (suc (suc (suc zero)))))))))))) h = refl
hex_digit (suc (suc (suc (suc (suc (suc (suc (suc (suc (suc (suc (suc (suc zero))))))))))))) h =
    refl
hex_digit (suc (suc (suc (suc (suc (suc (suc (suc (suc (suc (suc (suc (suc (suc zero))))))))))))))
      h =
    refl
hex_digit
      (suc (suc (suc (suc (suc (suc (suc (suc (suc (suc (suc (suc (suc (suc (suc zero)))))))))))))))
      h =
    refl
hex_digit
      (suc
        (suc (suc (suc (suc (suc (suc (suc (suc (suc (suc (suc (suc (suc (suc (suc d))))))))))))))))
      h =
    absurd (omega arith)

hex_loop-last :
    (fuel i : ℕ)
    → i / 16 ≡ 0
    → hex_loop (suc fuel) i ≡ some (map char_of (low_digits 16 (suc fuel) i))
unfolding hex_loop low_digits
hex_loop-last fuel i e = rw (hex_digit (i % 16) (omega arith), e) refl

hex_loop-more :
    (fuel i : ℕ)
    → (i / 16 == 0) ≡ false
    → hex_loop (suc fuel) i ≡ (hex_loop fuel (i / 16) >>= λ ds. some (char_of (i % 16) ∷ ds))
unfolding hex_loop
hex_loop-more fuel i e = rw (hex_digit (i % 16) (omega arith), e) refl

hex_loop-low_digits :
    (fuel i : ℕ)
    → i < 16 ^ suc fuel
    → hex_loop (suc fuel) i ≡ some (map char_of (low_digits 16 (suc fuel) i))
hex_loop-low_digits zero i h = hex_loop-last zero i (omega arith)
hex_loop-low_digits (suc fuel) i h =
    let rest = hex_loop-low_digits fuel (i / 16) (omega (arith, pow-suc 16 (suc fuel))) in
    elim (Bool-cases (i / 16 == 0)) [
      | inl last ↦ hex_loop-last (suc fuel) i (ground arith)
      | inr more ↦
          rw (hex_loop-more (suc fuel) i more, low_digits-more 16 (suc fuel) i more, rest) refl
    ]

hexadecimal :
    (i : ℕ) → i < 2 ^ 64 → read_digits 16 0 (reverse (map char_of (low_digits 16 16 i))) ≡ some i
hexadecimal i h =
    read-low_digits 16 (omega arith) (omega arith) (λ m fuel k. omega (arith, pow-suc 16 fuel))
      (λ m. omega arith) 15 i (omega arith)

-- An address put into a valid buffer with room for 48 bytes: the text grows by "0x" and a word that is
-- read, in base 16, as the address. Without the room nothing changes.
pub read_unsigned-put_pointer :
    (i : ℕ) (b : FixedBuffer)
    → IsValid b
    → i < 2 ^ 64
    → (has_room max_numeric_size b ≡ true
        → (b' : FixedBuffer) × (word : List ℕ) × (put_pointer i b ≡ some b')
          × IsValid b'
          × (text b' ≡ text b ++ (b'0' ∷ b'x' ∷ word))
          × (read_unsigned 16 word ≡ some i))
      × (has_room max_numeric_size b ≡ false → put_pointer i b ≡ some b)
unfolding put_pointer put_hex
read_unsigned-put_pointer i b v h = (
  λ room.
      let ds = map char_of (low_digits 16 16 i) in
      let n = length-reverse_aux ds [] in
      let m = length-map (low_digits 16 16 i) in
      let (b', e, v', t, l) =
        put_word_lem (b'0' ∷ b'x' ∷ reverse ds) b v room
          (omega (arith, n, m, length-low_digits 16 16 i)) in
      (
        b',
        reverse ds,
        rw (room, hex_loop-low_digits 15 i (omega arith)) e,
        v',
        t,
        read_unsigned-digits 16 i (reverse ds) (omega (arith, n, m, low_digits_nonempty 16 15 i))
            (hexadecimal i h),
      ),
  λ full. rw full refl,
)
