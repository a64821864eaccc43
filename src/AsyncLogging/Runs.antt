-- ===== src/AsyncLogging/Runs.antt =====
-- Any interleaving of the threads that log with the writing thread.
use ryan_network_library.Prelude.{
  ℕ, ◌^◌, ◌<◌, ◌≡◌, refl, sym, ◌∙◌, some, List, [], ◌∷◌, ◌++◌, append_assoc, append-nil, arith,
  length, replicate, length-replicate,
}
use ryan_network_library.FixedBuffer.{new, bzero}
use ryan_network_library.AsyncLogging.{AsyncLogging, Event, log, advance, step, run, start}
use ryan_network_library.AsyncLogging.Order.{
  logged, bytes_of, IsSized, IsValid, append_line-IsValid,
}
use ryan_network_library.AsyncLogging.Writer.{advance_writer-IsValid}

-- Every line that is logged is shorter than a buffer.
abbrev pub AllShort : ℕ → List Event → Type 0
AllShort size [] = Unit {0}
AllShort size (log line ∷ es) = (length line < size) × AllShort size es
AllShort size (advance ∷ es) = AllShort size es

-- Whatever lines the threads log, each shorter than a buffer, whose size is that of an int, and
-- wherever the writing thread is between them, from a valid state: no operation meets a null pointer
-- or an empty vector, the state is valid after, and the written buffers, the taken ones, the full ones
-- and the current one, in this order, hold what they held before and then the lines, whole and in the
-- order of logging.
pub run_keeps :
    (size : ℕ) (memory : List ℕ)
    → length memory ≡ size
    → size < 2 ^ 31
    → (es : List Event) (a : AsyncLogging) → IsValid size a
    → AllShort size es
    → (a' : AsyncLogging) × (run memory es a ≡ some a')
      × IsValid size a'
      × (logged a' ≡ logged a ++ bytes_of es)
unfolding run step
run_keeps size memory whole int_size [] a v short = (a, refl, v, sym (append-nil (logged a)))
run_keeps size memory whole int_size (log line ∷ es) a v (fits, short) =
    let (b, e, w, l) = append_line-IsValid size memory whole int_size line a v fits in
    let (c, f, x, m) = run_keeps size memory whole int_size es b w short in
    (c, rw e f, x, rw (m, l) (append_assoc (logged a) line (bytes_of es)))
run_keeps size memory whole int_size (advance ∷ es) a v short =
    let (b, e, w, l) = advance_writer-IsValid size a v in
    let (c, f, x, m) = run_keeps size memory whole int_size es b w short in
    (c, rw e f, x, rw (m, l) refl)

-- The buffers of the start are valid.
pub start-IsValid :
    (size : ℕ) (memory : List ℕ)
    → length memory ≡ size
    → size < 2 ^ 31
    → IsValid size (start memory)
unfolding start new bzero
start-IsValid size memory whole int_size =
    let n : length (replicate (length memory) 0) ≡ size =
      length-replicate (length memory) 0 ∙ whole in
    let s : IsSized size (record { data_ = replicate (length memory) 0; curr = 0 }) = record {
      valid = record { within = omega arith; size = omega (arith, n, int_size) };
      sized = n;
    } in
    record {
      current = s;
      next = (s, refl);
      full = tt;
      used = λ e. absurd cc;
      writer = ((s, refl), (s, refl), refl);
    }
