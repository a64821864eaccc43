-- ===== src/Buffer/Queue.antt =====
-- The buffer as a byte queue: Retrieve and RetrieveAsString of buffer/buffer.h, and any sequence of
-- operations against a list of bytes.
use ryan_network_library.Prelude.{
  ℕ, ◌+◌, ◌-◌, ◌^◌, ◌≤◌, ◌<◌, ◌≡◌, refl, sym, ◌∙◌, inl, inr, Option, some, List, [], ◌∷◌, ◌++◌,
  append_assoc, arith, length, take, drop, length-append, take-append-drop, length-take,
  length-drop, ltb, ltb→lt, ltb_false→le, Bool-cases, add64, ◌>>=◌, drop_all, length-slice,
  take-take,
}
use ryan_network_library.Buffer.{
  Buffer, retrieve_all, retrieve, retrieve_as_string, append, readable_bytes,
}
use ryan_network_library.Buffer.Layout.{
  IsValid, contents, Layout, Layout-IsValid, Layout-contents, IsValid-Layout, readable_bytes-Layout,
}
use ryan_network_library.Buffer.Space.{append_lem}

retrieve_all-Layout :
    {b : Buffer} → IsValid b → Layout (retrieve_all b) (take 8 b.buffer) [] (drop 8 b.buffer)
unfolding retrieve_all
retrieve_all-Layout {b} v = record {
  whole = sym (take-append-drop 8 b.buffer);
  reader = omega (arith, length-take 8 b.buffer);
  writer = omega (arith, length-take 8 b.buffer);
  base = omega (arith, length-take 8 b.buffer, length-drop 8 b.buffer);
  size = omega (arith, length-take 8 b.buffer, length-drop 8 b.buffer);
}

retrieve-Layout :
    {b : Buffer} {p c f : List ℕ} (n : ℕ)
    → Layout b p c f
    → n < length c
    → Layout (record b { reader_index = add64 b.reader_index n }) (p ++ take n c) (drop n c) f
retrieve-Layout {b} {p} {c} {f} n l h = record {
  whole = rw l.whole (rw append_assoc (rw (← append_assoc (take n c), take-append-drop n c)));
  reader = omega (arith, l.reader, l.size, length-append p (take n c), length-take n c);
  writer = omega (arith, l.writer, length-append p (take n c), length-take n c, length-drop n c);
  base = omega (arith, l.base, length-append p (take n c), length-take n c, length-drop n c);
  size = omega (arith, l.size, length-append p (take n c), length-take n c, length-drop n c);
}

length-retrieve : (n : ℕ) (b : Buffer) → length (retrieve n b).buffer ≡ length b.buffer
unfolding retrieve
length-retrieve n b = ground arith

-- `Retrieve(n)` on a valid buffer drops the first `n` readable bytes, all of them where there are no
-- more than `n`; the buffer stays valid and its storage keeps its size.
pub retrieve_lem :
    (n : ℕ) (b : Buffer)
    → IsValid b
    → IsValid (retrieve n b)
      × (contents (retrieve n b) ≡ drop n (contents b))
      × (length (retrieve n b).buffer ≡ length b.buffer)
unfolding retrieve
retrieve_lem n b v = elim (Bool-cases (ltb n (readable_bytes b))) [
  | inl some_left ↦
      let l =
        retrieve-Layout n (IsValid-Layout v)
          (omega (arith, ltb→lt _ _ some_left, readable_bytes-Layout (IsValid-Layout v))) in
      rw (some_left) (Layout-IsValid l, Layout-contents l, refl)
  | inr all ↦
      let l = retrieve_all-Layout v in
      rw all (
        Layout-IsValid l,
        Layout-contents l
            ∙ sym (
                drop_all n (contents b)
                  (omega (arith, ltb_false→le _ _ all, readable_bytes-Layout (IsValid-Layout v)))),
        refl,
      )
]

-- What the application asks of the buffer: bytes in, bytes dropped, bytes taken out.
pub data Op : Type 0 where
  put : List ℕ → Op
  skip : ℕ → Op
  read : ℕ → Op

unfoldable pub step : Op → Buffer → Option (List ℕ × Buffer)
step (put bytes) b = do b' ← append bytes b; some ([], b')
step (skip n) b = some ([], retrieve n b)
step (read n) b = retrieve_as_string n b

-- The bytes read out of the buffer, in order, and the buffer at the end.
unfoldable pub run : List Op → Buffer → Option (List ℕ × Buffer)
run [] b = some ([], b)
run (op ∷ ops) b = do (out, b') ← step op b; (rest, b'') ← run ops b'; some (out ++ rest, b'')

-- The same operations on the bytes themselves.
unfoldable pub spec : Op → List ℕ → List ℕ × List ℕ
spec (put bytes) q = ([], q ++ bytes)
spec (skip n) q = ([], drop n q)
spec (read n) q = (take n q, drop n q)

unfoldable pub spec_run : List Op → List ℕ → List ℕ × List ℕ
spec_run [] q = ([], q)
spec_run (op ∷ ops) q =
    let (out, q') = spec op q in let (rest, q'') = spec_run ops q' in (out ++ rest, q'')

-- A read asks for no more than there is, and a chunk is below 2 GiB.
abbrev pub IsAllowed : Op → List ℕ → Type 0
IsAllowed (put bytes) q = length bytes < 2 ^ 31
IsAllowed (skip n) q = Unit {0}
IsAllowed (read n) q = n ≤ length q

abbrev pub AllAllowed : List Op → List ℕ → Type 0
AllAllowed [] q = Unit {0}
AllAllowed (op ∷ ops) q = IsAllowed op q × AllAllowed ops (spec op q).1

abbrev pub added : Op → ℕ
added (put bytes) = length bytes
added (skip n) = 0
added (read n) = 0

abbrev pub all_added : List Op → ℕ
all_added [] = 0
all_added (op ∷ ops) = added op + all_added ops

-- A read of `n` readable bytes returns them and drops them.
pub retrieve_as_string_lem :
    (n : ℕ) (b : Buffer)
    → IsValid b
    → n ≤ length (contents b)
    → retrieve_as_string n b ≡ some (take n (contents b), retrieve n b)
unfolding retrieve_as_string
retrieve_as_string_lem n b v h = ground (
  arith,
  length-slice b.reader_index (b.writer_index - b.reader_index) b.buffer,
  take-take n (b.writer_index - b.reader_index) (drop b.reader_index b.buffer),
)

step-spec :
    (op : Op) (b : Buffer)
    → IsValid b
    → IsAllowed op (contents b)
    → length b.buffer + added op < 2 ^ 62
    → (b' : Buffer) × (step op b ≡ some ((spec op (contents b)).0, b'))
      × IsValid b'
      × (contents b' ≡ (spec op (contents b)).1)
      × (length b'.buffer ≤ length b.buffer + added op)
unfolding step spec
step-spec (put bytes) b v ok fits =
    let (b', e, v', c, g) = append_lem b bytes v ok fits in (b', rw e, v', c, g)
step-spec (skip n) b v ok fits =
    let (v', c, g) = retrieve_lem n b v in (retrieve n b, refl, v', c, omega (arith, g))
step-spec (read n) b v ok fits =
    let (v', c, g) = retrieve_lem n b v in
    (retrieve n b, retrieve_as_string_lem n b v ok, v', c, omega (arith, g))

-- Any sequence of appends, drops and reads on a valid buffer, where each append is below 2 ^ 31
-- bytes, each read asks for readable bytes and the storage stays below 2 ^ 62 bytes: no operation
-- faults, and the bytes read out and those left are what the same operations give on the list of
-- the readable bytes.
pub run_refines :
    (ops : List Op) (b : Buffer)
    → IsValid b
    → AllAllowed ops (contents b)
    → length b.buffer + all_added ops < 2 ^ 62
    → (b' : Buffer) × (run ops b ≡ some ((spec_run ops (contents b)).0, b'))
      × IsValid b'
      × (contents b' ≡ (spec_run ops (contents b)).1)
unfolding run spec_run
run_refines [] b v ok fits = (b, refl, v, refl)
run_refines (op ∷ ops) b v ok fits =
    let (b', e, v', c, g) = step-spec op b v ok.0 (omega arith) in
    let (b'', e', v'', c') = run_refines ops b' v' (rw c ok.1) (omega (arith, g)) in
    (b'', rw (e, e', c), v'', rw c at c')
