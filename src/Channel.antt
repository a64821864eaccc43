-- ===== src/Channel.antt =====
-- net/channel.h and net/channel.cc: the events that a descriptor is watched for, and which callbacks an
-- event runs. A set of epoll flags is a record of Booleans; `mask` is its number.
mod Tests
use ryan_network_library.Prelude.{
  ℕ, ◌+◌, ◌-◌, ◌^◌, ◌≡◌, refl, Bool, true, false, not, ◌&&◌, ◌||◌, List, [], ◌∷◌, arith, set, ◌==◌,
  if◌then◌else◌,
}
use Prim.Native.Nat.{bit_and, bit_or}

-- `events_`: the two masks that the class sets and clears, `kReadEvent` and `kWriteEvent`.
pub record Interest : Type 0 where
  pub reading : Bool
  pub writing : Bool

abbrev pub no_events : Interest
no_events = record { reading = false; writing = false }

unfoldable pub enable_reading : Interest → Interest
enable_reading e = record e { reading = true }

unfoldable pub disable_reading : Interest → Interest
disable_reading e = record e { reading = false }

unfoldable pub enable_writing : Interest → Interest
enable_writing e = record e { writing = true }

unfoldable pub disable_writing : Interest → Interest
disable_writing e = record e { writing = false }

unfoldable pub disable_all : Interest → Interest
disable_all e = no_events

unfoldable pub is_none_event : Interest → Bool
is_none_event e = not e.reading && not e.writing

abbrev pub is_writing : Interest → Bool
is_writing e = e.writing

abbrev pub is_reading : Interest → Bool
is_reading e = e.reading

-- EPOLLIN is 1, EPOLLPRI 2, EPOLLOUT 4, EPOLLERR 8, EPOLLHUP 16.
abbrev pub read_event : ℕ
read_event = 3

abbrev pub write_event : ℕ
write_event = 4

-- `~mask` as a 32-bit number.
abbrev complement : ℕ → ℕ
complement m = 2 ^ 32 - 1 - m

abbrev pub mask : Interest → ℕ
mask e = (if e.reading then read_event else 0) + (if e.writing then write_event else 0)

-- `revents_`.
pub record Ready : Type 0 where
  pub readable : Bool
  pub priority : Bool
  pub writable : Bool
  pub failed : Bool
  pub hung_up : Bool

pub data Callback : Type 0 where
  on_close on_error on_read on_write : Callback

-- Which of the four callbacks are set.
pub record Handlers : Type 0 where
  pub close_callback : Bool
  pub error_callback : Bool
  pub read_callback : Bool
  pub write_callback : Bool

abbrev call_if : Bool → Bool → Callback → List Callback → List Callback
call_if test set c rest = if test then (if set then c ∷ rest else rest) else rest

-- The calls of `HandleEventWithGuard`, in order. Only the poller writes `revents_`, so the
-- callbacks do not change the later tests.
pub handle_event_with_guard : Handlers → Ready → List Callback
handle_event_with_guard h r = call_if (r.hung_up && not r.readable) h.close_callback on_close (
    call_if r.failed h.error_callback on_error (
      call_if (r.readable || r.priority) h.read_callback on_read
        (call_if r.writable h.write_callback on_write [])))

-- `tied` is `tied_`, `alive` is whether `tie_.lock()` gives the object.
unfoldable pub handle_event : Bool → Bool → Handlers → Ready → List Callback
unfolding handle_event_with_guard
handle_event tied alive h r =
    if tied
    then (if alive then handle_event_with_guard h r else [])
    else handle_event_with_guard h r

-- Every change of the record is the bit operation of the class on the number, and the tests of the
-- class on the number are the tests of the record.
pub mask_ops :
    (e : Interest)
    → (mask (enable_reading e) ≡ bit_or (mask e) read_event)
      × (mask (disable_reading e) ≡ bit_and (mask e) (complement read_event))
      × (mask (enable_writing e) ≡ bit_or (mask e) write_event)
      × (mask (disable_writing e) ≡ bit_and (mask e) (complement write_event))
      × (mask (disable_all e) ≡ bit_and (mask e) 0)
      × (is_none_event e ≡ (mask e == 0))
      × (is_writing e ≡ not (bit_and (mask e) write_event == 0))
      × (is_reading e ≡ not (bit_and (mask e) read_event == 0))
unfolding enable_reading disable_reading enable_writing disable_writing disable_all is_none_event
mask_ops e = go e.reading e.writing
  where
    go :
        (r w : Bool)
        → let e : Interest = record { reading = r; writing = w } in
          (mask (enable_reading e) ≡ bit_or (mask e) read_event)
          × (mask (disable_reading e) ≡ bit_and (mask e) (complement read_event))
          × (mask (enable_writing e) ≡ bit_or (mask e) write_event)
          × (mask (disable_writing e) ≡ bit_and (mask e) (complement write_event))
          × (mask (disable_all e) ≡ bit_and (mask e) 0)
          × (is_none_event e ≡ (mask e == 0))
          × (is_writing e ≡ not (bit_and (mask e) write_event == 0))
          × (is_reading e ≡ not (bit_and (mask e) read_event == 0))
    go true true = (refl, refl, refl, refl, refl, refl, refl, refl)
    go true false = (refl, refl, refl, refl, refl, refl, refl, refl)
    go false true = (refl, refl, refl, refl, refl, refl, refl, refl)
    go false false = (refl, refl, refl, refl, refl, refl, refl, refl)

-- How often a callback runs.
abbrev pub same : Callback → Callback → Bool
same on_close on_close = true
same on_error on_error = true
same on_read on_read = true
same on_write on_write = true
same _ _ = false

abbrev pub calls : Callback → List Callback → ℕ
calls c [] = 0
calls c (d ∷ ds) = (if same c d then 1 else 0) + calls c ds

abbrev once_if : Bool → ℕ
once_if b = if b then 1 else 0

-- For an untied channel or one whose object is alive, each callback runs at most once, exactly when
-- it is set and its condition holds: close for a hang-up with nothing readable, error for an error,
-- read for input or priority input, write for output. For a tied channel whose object is gone no
-- callback runs.
pub handle_event_calls :
    (tied alive : Bool) (h : Handlers) (r : Ready)
    → let live = not tied || alive in
      let done = handle_event tied alive h r in
      (calls on_close done ≡ once_if (live && (r.hung_up && not r.readable) && h.close_callback))
      × (calls on_error done ≡ once_if (live && r.failed && h.error_callback))
      × (calls on_read done ≡ once_if (live && (r.readable || r.priority) && h.read_callback))
      × (calls on_write done ≡ once_if (live && r.writable && h.write_callback))
unfolding handle_event
handle_event_calls tied alive h r = (ground arith, ground arith, ground arith, ground arith)
