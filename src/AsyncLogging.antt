-- ===== src/AsyncLogging.antt =====
-- logger/async_logging.h and async_logging.cc: the buffers between the threads that log and the thread
-- that writes. A unique_ptr is an option; `none` of an operation is a null pointer or an empty vector
-- that is used.
pub mod Order
pub mod Writer
pub mod Runs
pub mod Output
pub mod Files
mod Tests
use ryan_network_library.Prelude.{
  ℕ, ◌+◌, ◌-◌, Bool, true, false, Option, none, some, List, [], ◌∷◌, ◌++◌, length, get_elem?, take,
  if◌then◌else◌, ◌>>=◌, ◌>>◌,
}
use ryan_network_library.FixedBuffer.{
  FixedBuffer, new, append, reset, bzero, has_more_than, to_string,
}

-- Where the writing thread stands: in front of the lock, behind it, behind the output.
pub data Phase : Type 0 where
  waiting collected output : Phase

-- `new_buffer1`, `new_buffer2` and `buffers_to_write` are the variables of `ThreadFunc`. `written` are
-- the buffers that were put out, as they were then: the file has all their bytes.
pub record AsyncLogging : Type 0 where
  pub current_buffer : Option FixedBuffer
  pub next_buffer : Option FixedBuffer
  pub buffers : List FixedBuffer
  pub phase : Phase
  pub new_buffer1 : Option FixedBuffer
  pub new_buffer2 : Option FixedBuffer
  pub buffers_to_write : List FixedBuffer
  pub written : List FixedBuffer

-- The constructor and the start of `ThreadFunc`: four buffers of zeros.
unfoldable pub start : List ℕ → AsyncLogging
unfolding new bzero
start memory = record {
  current_buffer = some (bzero (new memory));
  next_buffer = some (bzero (new memory));
  buffers = [];
  phase = waiting;
  new_buffer1 = some (bzero (new memory));
  new_buffer2 = some (bzero (new memory));
  buffers_to_write = [];
  written = [];
}

-- The next buffer, or a new one in the memory that is given.
abbrev pub fresh_buffer : Option FixedBuffer → List ℕ → FixedBuffer
fresh_buffer none memory = new memory
fresh_buffer (some b) memory = b

-- `Append`, the part under the lock.
unfoldable pub append_line : List ℕ → List ℕ → AsyncLogging → Option AsyncLogging
append_line memory line a = do
  current ← a.current_buffer
  if has_more_than (length line) current
      then (do filled ← append line current; some (record a { current_buffer = some filled }))
      else (do
        filled ← append line (fresh_buffer a.next_buffer memory)
        some (record a {
          current_buffer = some filled;
          next_buffer = none;
          buffers = a.buffers ++ (current ∷ []);
        }))

abbrev pub is_null : Option FixedBuffer → Bool
is_null none = true
is_null (some b) = false

-- `ThreadFunc`, the part under the lock.
unfoldable pub collect : AsyncLogging → Option AsyncLogging
collect a = do
  current ← a.current_buffer
  some (record a {
    phase = collected;
    current_buffer = a.new_buffer1;
    next_buffer = if is_null a.next_buffer then a.new_buffer2 else a.next_buffer;
    buffers = a.buffers_to_write;
    new_buffer1 = none;
    new_buffer2 = if is_null a.next_buffer then none else a.new_buffer2;
    buffers_to_write = a.buffers ++ (current ∷ []);
  })

-- Every buffer is appended to the file, with `Length()` bytes of it.
unfoldable pub put_out : AsyncLogging → AsyncLogging
put_out a = record a { phase = output; written = a.written ++ a.buffers_to_write }

-- `back()` and `pop_back()`.
unfoldable pub take_back : List FixedBuffer → Option (FixedBuffer × List FixedBuffer)
take_back bs = do b ← get_elem? bs (length bs - 1); some (b, take (length bs - 1) bs)

-- One of the writing thread's buffers, if it was given away.
unfoldable pub refill_one :
    Option FixedBuffer → List FixedBuffer → Option (Option FixedBuffer × List FixedBuffer)
unfolding take_back reset
refill_one (some b) bs = some (some b, bs)
refill_one none bs = do (b, rest) ← take_back bs; some (some (reset b), rest)

-- The end of the loop's body.
unfoldable pub refill : AsyncLogging → Option AsyncLogging
unfolding refill_one
refill a = do
  (b1, rest) ← refill_one a.new_buffer1 (take 2 a.buffers_to_write)
  (b2, rest') ← refill_one a.new_buffer2 rest
  some (record a { phase = waiting; new_buffer1 = b1; new_buffer2 = b2; buffers_to_write = [] })

-- A line of any thread, or the next part of the writing thread's loop. The wait for a line is not a
-- guard: the loop goes on after three seconds at most.
pub data Event : Type 0 where
  log : List ℕ → Event
  advance : Event

unfoldable pub advance_writer : AsyncLogging → Option AsyncLogging
unfolding collect put_out refill
advance_writer a = elim a.phase [
  | waiting ↦ collect a
  | collected ↦ some (put_out a)
  | output ↦ refill a
]

unfoldable pub step : List ℕ → Event → AsyncLogging → Option AsyncLogging
unfolding append_line advance_writer
step memory (log line) a = append_line memory line a
step memory advance a = advance_writer a

unfoldable pub run : List ℕ → List Event → AsyncLogging → Option AsyncLogging
unfolding step
run memory [] a = some a
run memory (e ∷ es) a = do a' ← step memory e a; run memory es a'

-- The bytes in the file.
unfoldable pub file_bytes : List FixedBuffer → List ℕ
unfolding to_string
file_bytes [] = []
file_bytes (b ∷ bs) = to_string b ++ file_bytes bs
