-- ===== src/Prelude/Slices.antt =====
-- Cutting a list at a position, and writing over a stretch of it.
use Prim.Native.Nat.{ℕ, zero, suc, ◌+◌, ◌-◌, ◌≤◌}
use mathlib.Core.Path.{◌≡◌, refl, sym}
use mathlib.Core.List.{List, [], ◌∷◌, ◌++◌}
use mathlib.Core.Option.{Option, none, some}
use native.Mathlib.Omega.{arith}
use ryan_network_library.Prelude.Tests.{leb, if◌then◌else◌, le→leb}
use ryan_network_library.Prelude.Lists.{
  length, take, drop, replicate, take-append-drop, length-append, length-take, length-drop,
}

module _ {ℓ} {A : Type ℓ} where
  pub take_all : (n : ℕ) (xs : List A) → length xs ≤ n → take n xs ≡ xs
  take_all zero [] h = refl
  take_all zero (x ∷ xs) h = absurd (omega arith)
  take_all (suc n) [] h = refl
  take_all (suc n) (x ∷ xs) h = rw (take_all n xs (omega arith))

  pub drop_all : (n : ℕ) (xs : List A) → length xs ≤ n → drop n xs ≡ []
  drop_all zero [] h = refl
  drop_all zero (x ∷ xs) h = absurd (omega arith)
  drop_all (suc n) [] h = refl
  drop_all (suc n) (x ∷ xs) h = drop_all n xs (omega arith)

  pub take-append : (n : ℕ) (xs ys : List A) → n ≡ length xs → take n (xs ++ ys) ≡ xs
  take-append zero [] ys e = refl
  take-append zero (x ∷ xs) ys e = absurd (omega arith)
  take-append (suc n) [] ys e = absurd (omega arith)
  take-append (suc n) (x ∷ xs) ys e = rw (take-append n xs ys (omega arith))

  pub drop-append : (n : ℕ) (xs ys : List A) → n ≡ length xs → drop n (xs ++ ys) ≡ ys
  drop-append zero [] ys e = refl
  drop-append zero (x ∷ xs) ys e = absurd (omega arith)
  drop-append (suc n) [] ys e = absurd (omega arith)
  drop-append (suc n) (x ∷ xs) ys e = drop-append n xs ys (omega arith)

  -- Past the first part.
  pub drop-append_add :
      (n m : ℕ) (xs ys : List A) → n ≡ length xs + m → drop n (xs ++ ys) ≡ drop m ys
  drop-append_add n m [] ys e = let e' : n ≡ m = omega arith in rw e'
  drop-append_add zero m (x ∷ xs) ys e = absurd (omega arith)
  drop-append_add (suc n) m (x ∷ xs) ys e = drop-append_add n m xs ys (omega arith)

  pub take-append_add :
      (n m : ℕ) (xs ys : List A) → n ≡ length xs + m → take n (xs ++ ys) ≡ xs ++ take m ys
  take-append_add n m [] ys e = let e' : n ≡ m = omega arith in rw e'
  take-append_add zero m (x ∷ xs) ys e = absurd (omega arith)
  take-append_add (suc n) m (x ∷ xs) ys e = rw (take-append_add n m xs ys (omega arith))

  -- `std::copy` of `ys` to position `i`: a fault past the end of the storage.
  abbrev pub copy_to : List A → ℕ → List A → Option (List A)
  copy_to xs i ys =
      if leb (i + length ys) (length xs)
      then some (take i xs ++ (ys ++ drop (i + length ys) xs))
      else none

  -- The stretch `[i, i + n)`.
  abbrev pub slice : ℕ → ℕ → List A → List A
  slice i n xs = take n (drop i xs)

  -- `vector::resize`: new elements are `a`.
  abbrev pub resize : ℕ → A → List A → List A
  resize n a xs = take n xs ++ replicate (n - length xs) a

module _ {ℓ} {A : Type ℓ} where
  pub drop-drop : (n m k : ℕ) (xs : List A) → k ≡ n + m → drop m (drop n xs) ≡ drop k xs
  drop-drop zero m k xs e = let e' : k ≡ m = omega arith in rw e'
  drop-drop (suc n) zero k [] e = sym (drop_all k [] (omega arith))
  drop-drop (suc n) (suc m) k [] e = sym (drop_all k [] (omega arith))
  drop-drop (suc n) m zero (x ∷ xs) e = absurd (omega arith)
  drop-drop (suc n) m (suc k) (x ∷ xs) e = drop-drop n m k xs (omega arith)

  -- Three stretches make up the list.
  pub cut_three :
      (n m k : ℕ) (xs : List A) → k ≡ n + m → xs ≡ take n xs ++ (slice n m xs ++ drop k xs)
  cut_three n m k xs e =
      rw (← drop-drop n m k xs e, take-append-drop m (drop n xs)) (sym (take-append-drop n xs))

  pub length-slice : (n m : ℕ) (xs : List A) → n + m ≤ length xs → length (slice n m xs) ≡ m
  length-slice n m xs h = omega (arith, length-take m (drop n xs), length-drop n xs)

  -- Writing over the stretch behind `p`.
  pub copy_to-append :
      (i : ℕ) (p ys f : List A)
      → i ≡ length p
      → length ys ≤ length f
      → copy_to (p ++ f) i ys ≡ some (p ++ (ys ++ drop (length ys) f))
  copy_to-append i p ys f e h = rw (
    le→leb (i + length ys) (length (p ++ f)) (omega (arith, length-append p f)),
    take-append i p f e,
    drop-append_add (i + length ys) (length ys) p f (omega arith),
  )

  pub take-take : (n m : ℕ) (xs : List A) → n ≤ m → take n (take m xs) ≡ take n xs
  take-take zero m xs h = refl
  take-take (suc n) zero xs h = absurd (omega arith)
  take-take (suc n) (suc m) [] h = refl
  take-take (suc n) (suc m) (x ∷ xs) h = rw (take-take n m xs (omega arith))
