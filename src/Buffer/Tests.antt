-- ===== src/Buffer/Tests.antt =====
-- The theorems on the buffer at concrete inputs.
use ryan_network_library.Prelude.{
  ℕ, zero, suc, ◌+◌, ◌*◌, ◌/◌, ◌%◌, ◌^◌, ◌<◌, ◌≡◌, refl, ap, ◌∙◌, some, List, [], ◌∷◌, ◌++◌, arith,
  replicate,
}
use native.Mathlib.Nat.{pow-suc}
use ryan_network_library.Buffer.{
  Buffer, new, append, retrieve, shrink, prepend, ensure_writable_bytes, writable_bytes,
  readable_bytes, prependable_bytes, retrieve_until,
}
use ryan_network_library.Buffer.Layout.{IsValid, contents}
use ryan_network_library.Buffer.Queue.{
  Op, put, skip, read, run, spec_run, retrieve_lem, run_refines,
}
use ryan_network_library.Buffer.Ints.{Endian, be_bytes}

-- "GET\r\nhi" behind the 8 cheap bytes, 4 bytes free.
abbrev line : List ℕ
line = 71 ∷ 69 ∷ 84 ∷ 13 ∷ 10 ∷ 104 ∷ 105 ∷ []

abbrev request : Buffer
request = record {
  buffer = replicate 8 0 ++ (line ++ replicate 4 0);
  reader_index = 8;
  writer_index = 15;
}

request-IsValid : IsValid request
request-IsValid = omega arith

abbrev empty : Buffer
empty = record { buffer = replicate 12 0; reader_index = 8; writer_index = 8 }

empty-IsValid : IsValid empty
empty-IsValid = omega arith

append_grows :
    append (1 ∷ 2 ∷ 3 ∷ 4 ∷ 5 ∷ []) empty
    ≡ some (record {
      buffer = replicate 8 0 ++ (1 ∷ 2 ∷ 3 ∷ 4 ∷ 5 ∷ []);
      reader_index = 8;
      writer_index = 13;
    })
unfolding append ensure_writable_bytes ryan_network_library.Buffer.make_space
append_grows = refl

abbrev script : List Op
script = read 3 ∷ put (1 ∷ 2 ∷ []) ∷ skip 2 ∷ read 4 ∷ []

run_refines_example :
    (b' : Buffer) × (run script request ≡ some (71 ∷ 69 ∷ 84 ∷ 104 ∷ 105 ∷ 1 ∷ 2 ∷ [], b'))
    × IsValid b'
    × (contents b' ≡ [])
unfolding spec_run ryan_network_library.Buffer.Queue.spec
run_refines_example = run_refines script request request-IsValid (omega arith) (omega arith)

-- A machine that stores the most significant byte first.
be_value : ℕ → List ℕ → ℕ
be_value acc [] = acc
be_value acc (y ∷ ys) = be_value (acc * 256 + y) ys

be_value-append :
    (acc : ℕ) (xs ys : List ℕ) → be_value acc (xs ++ ys) ≡ be_value (be_value acc xs) ys
unfolding be_value
be_value-append acc [] ys = refl
be_value-append acc (x ∷ xs) ys = be_value-append (acc * 256 + x) xs ys

be_value-be_bytes : (w x : ℕ) → x < 256 ^ w → be_value 0 (be_bytes w x) ≡ x
unfolding be_value be_bytes
be_value-be_bytes zero x h = omega arith
be_value-be_bytes (suc w) x h =
    be_value-append 0 (be_bytes w (x / 256)) (x % 256 ∷ [])
    ∙ rw (be_value-be_bytes w (x / 256) (omega (arith, pow-suc 256 w))) (omega arith)

one_byte_be : (x : ℕ) → x < 256 ^ 1 → be_bytes 1 x ≡ x ∷ []
unfolding be_bytes
one_byte_be x h = ap (λ y. y ∷ []) (omega arith)

big_endian : Endian
big_endian = record {
  host_bytes = be_bytes;
  host_value = λ w bytes. be_value 0 bytes;
  htobe = λ w x. x;
  betoh = λ w x. x;
  value_of_bytes = be_value-be_bytes;
  htobe_lt = λ w x h. h;
  htobe_memory = λ w x h. refl;
  betoh-htobe = λ w x h. refl;
  one_byte = one_byte_be;
}
