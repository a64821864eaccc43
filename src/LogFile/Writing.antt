-- ===== src/LogFile/Writing.antt =====
-- FileUtil::Append: it ends when the disk takes enough bytes, and not before.
use ryan_network_library.Prelude.{
  ℕ, ◌+◌, ◌≤◌, ◌<◌, min, ◌≡◌, refl, inl, inr, none, some, List, [], ◌∷◌, ◌++◌, append_assoc,
  append-nil, arith, length, take, drop, take-append-drop, length-drop, ◌==◌, ==_iff, Bool-cases,
  drop_all, drop-drop,
}
use ryan_network_library.LogFile.{FileUtil, write, append_loop, append}

-- What the disk would take in all.
abbrev pub sum : List ℕ → ℕ
sum [] = 0
sum (r ∷ rs) = r + sum rs

-- The file after `n` more bytes of the data.
abbrev added : List ℕ → FileUtil → FileUtil
added bytes f = record f { content = f.content ++ bytes }

-- The bytes from `written` on, added in two steps.
added-twice :
    (n : ℕ) (bytes : List ℕ) (written : ℕ) (f : FileUtil)
    → added (drop (written + n) bytes) (added (take n (drop written bytes)) f)
      ≡ added (drop written bytes) f
added-twice n bytes written f =
    rw
      (
        append_assoc f.content (take n (drop written bytes)) (drop (written + n) bytes),
        ← drop-drop written n (written + n) bytes refl,
        take-append-drop n (drop written bytes),
      )
      refl

append_loop-ends :
    (results bytes : List ℕ) (written : ℕ) (f : FileUtil)
    → written ≤ length bytes
    → (length bytes ≤ written + sum results
        → (rest : List ℕ) × (append_loop results bytes written f
            ≡ some (rest, length bytes, added (drop written bytes) f)))
      × (written + sum results < length bytes → append_loop results bytes written f ≡ none)
unfolding append_loop write
append_loop-ends [] bytes written f bound = elim (Bool-cases (written == length bytes)) [
  | inl e ↦
      let same = (==_iff written (length bytes)).0 e in
      (
        λ h. ([], rw (e, drop_all written bytes (omega arith), append-nil f.content, same) refl),
        λ h. absurd (omega arith),
      )
  | inr e ↦
      (λ h. let same = (==_iff written (length bytes)).1 (omega arith) in absurd cc, λ h. rw e refl)
]
append_loop-ends (r ∷ rs) bytes written f bound = elim (Bool-cases (written == length bytes)) [
  | inl e ↦
      let same = (==_iff written (length bytes)).0 e in
      (
        λ h.
            (r ∷ rs, rw (e, drop_all written bytes (omega arith), append-nil f.content, same) refl),
        λ h. absurd (omega arith),
      )
  | inr e ↦
      let d = length-drop written bytes in
      let n = min r (length (drop written bytes)) in
      let g = added (take n (drop written bytes)) f in
      let (ends, more) = append_loop-ends rs bytes (written + n) g (omega (arith, d)) in
      (
        λ h.
            let (rest, k) = ends (omega (arith, d)) in
            (rest, rw (e, k, added-twice n bytes written f) refl),
        λ h. rw e (more (omega (arith, d))),
      )
]

-- `FileUtil::Append` ends exactly when the results of fwrite sum up to the length of the bytes or more.
-- Then the file has all the bytes behind what it had, however the disk cut them, and its count of bytes
-- has grown by their number; with less the loop is still running after the last result.
pub append_ends :
    (results bytes : List ℕ) (f : FileUtil)
    → (length bytes ≤ sum results
        → (rest : List ℕ) × (append results bytes f
            ≡ some (
              rest,
              record f {
                written_bytes_ = f.written_bytes_ + length bytes;
                content = f.content ++ bytes;
              },
            )))
      × (sum results < length bytes → append results bytes f ≡ none)
unfolding append
append_ends results bytes f =
    let (ends, more) = append_loop-ends results bytes 0 f (omega arith) in
    (
      λ h. let (rest, k) = ends (omega arith) in (rest, rw k refl),
      λ h. rw (more (omega arith)) refl,
    )
