-- ===== src/TcpConnection/Tests.antt =====
-- The theorems on a connection at concrete inputs.
use ryan_network_library.TcpConnection.{is_disconnected}
use ryan_network_library.Prelude.{◌↔◌, ◌⊎◌, ◌&&◌, Bool}
use ryan_network_library.Prelude.{
  ℕ, ◌++◌, ◌≤◌, ◌≡◌, refl, ◌≢◌, true, false, some, List, [], ◌∷◌, arith, length, replicate, ltb,
}
use ryan_network_library.Buffer.{Buffer, append, ensure_writable_bytes, readable_bytes}
use ryan_network_library.Buffer.Layout.{contents}
use ryan_network_library.Buffer.Fd.{Write, wrote}
use ryan_network_library.Channel.{enable_writing, is_writing}
use ryan_network_library.TcpConnection.{
  Conn, connected, disconnecting, keep_rest, warn, direct_write, shutdown, send_in_loop,
  shutdown_write,
}
use ryan_network_library.TcpConnection.Stream.{IsSynced, stream, send_in_loop_lem}
use ryan_network_library.TcpConnection.Runs.{Event, sends, writable, run, run-stream}
use ryan_network_library.TcpConnection.Lifecycle.{
  shuts_down, is_stale, is_late, call, call-Orderly, rank, shutdowns,
}
use ryan_network_library.EventLoop.{
  EventLoop, polling, handling, begin_functors, run_functor, other_pushes, other_wakes,
  push_functor, wake_loop, poll_returns, begins,
}
use ryan_network_library.TcpConnection.Queued.{
  Served, texts, all_stay, IsFair, IsInOrder, moves, sends as sends_task, Steps, here, next,
  Steps-in_order,
}

abbrev idle : Buffer
idle = record { buffer = replicate 16 0; reader_index = 8; writer_index = 8 }

abbrev open_conn : Conn
open_conn = record {
  state = connected;
  reading = true;
  events = record { reading = true; writing = false };
  tied = true;
  input = idle;
  output = idle;
  high_watermark = 64;
  has_write_complete = true;
  has_high_watermark = false;
  sent = [];
  actions = [];
}

open_conn-IsSynced : IsSynced open_conn
open_conn-IsSynced = record { valid = omega arith; flag = λ _. refl }

send_in_loop_lem_example :
    (c' : Conn) × (send_in_loop (wrote 1) (1 ∷ 2 ∷ 3 ∷ []) open_conn ≡ some c')
    × IsSynced c'
    × (c'.state ≡ connected)
    × (stream c' ≡ 1 ∷ 2 ∷ 3 ∷ [])
    × (length c'.output.buffer ≤ 19)
unfolding readable_bytes
send_in_loop_lem_example =
    send_in_loop_lem (wrote 1) (1 ∷ 2 ∷ 3 ∷ []) open_conn open_conn-IsSynced refl (omega arith)
      (omega arith) (omega arith)

abbrev traffic : List Event
traffic = sends (wrote 1) (1 ∷ 2 ∷ 3 ∷ []) ∷ sends (wrote 0) (4 ∷ []) ∷ writable (wrote 2) ∷ []

run-stream_example :
    (c' : Conn) × (run traffic open_conn ≡ some c')
    × (c'.state ≡ connected)
    × (stream c' ≡ 1 ∷ 2 ∷ 3 ∷ 4 ∷ [])
    × (is_writing c'.events ≡ ltb 0 (length (contents c'.output)))
run-stream_example =
    run-stream traffic open_conn open_conn-IsSynced refl
      ((omega arith, omega arith, refl), ((omega arith, omega arith, refl), (tt, tt))) (omega arith)

call-Orderly_example :
    (rank connected ≤ rank disconnecting
      ↔ ((is_stale shuts_down && is_disconnected connected) ≡ false))
    × (shutdowns (shutdown_write ∷ []) ≢ shutdowns []
        → (false ≡ false)
          × ((disconnecting ≡ disconnecting)
              ⊎ ((is_late shuts_down ≡ true) × (disconnecting ≡ connected))))
unfolding call shutdown
call-Orderly_example =
    call-Orderly shuts_down open_conn
      (record open_conn { state = disconnecting; actions = shutdown_write ∷ [] }) refl

abbrev empty_loop : EventLoop
empty_loop = record {
  phase = polling;
  quit = false;
  calling_pending_functors = false;
  pending_functors = [];
  functors = [];
  counter = 0;
  queued = [];
  done = [];
  waking = 0;
  own_waking = 0;
}

-- Task 7 sends three bytes.
abbrev message_of : ℕ → List ℕ
message_of f = f ∷ f ∷ f ∷ []

-- Every caller keeps its string.
abbrev keeps : ℕ → Bool
keeps f = true

abbrev before_task : Served
before_task = record { loop = empty_loop; conn = open_conn; read = [] }

before_task-IsInOrder : IsInOrder message_of keeps [] before_task
before_task-IsInOrder = record {
  awake = record {
    woken = λ p q. absurd (q refl);
    settled = λ p. refl;
    flag = λ p. cc;
    fresh = λ p. refl;
    order = refl;
  };
  synced = open_conn-IsSynced;
  live = refl;
  bytes = refl;
  whole = λ all. refl;
}

-- Another thread queues task 7; the loop's thread wakes up and takes it.
abbrev pushed_loop : EventLoop
pushed_loop = record empty_loop { pending_functors = 7 ∷ []; queued = 7 ∷ []; waking = 1 }

abbrev queued_loop : EventLoop
queued_loop = record pushed_loop { counter = 1; waking = 0 }

abbrev woken_loop : EventLoop
woken_loop = record queued_loop { phase = handling }

abbrev at_task : Served
at_task = record { loop = begin_functors woken_loop; conn = open_conn; read = [] }

at_task-Steps : Steps message_of keeps before_task at_task
unfolding push_functor wake_loop begin_functors
at_task-Steps =
    next
      (next
        (next (next here (moves before_task pushed_loop (other_pushes empty_loop 7) refl)) (
          moves (record before_task { loop = pushed_loop }) queued_loop
            (other_wakes pushed_loop 0 refl) refl))
        (moves (record before_task { loop = queued_loop }) woken_loop
          (poll_returns queued_loop refl) refl))
      (moves (record before_task { loop = woken_loop }) (begin_functors woken_loop)
        (begins woken_loop refl refl) refl)

-- The socket took one of the bytes.
abbrev sent_conn : Conn
sent_conn = record open_conn {
  events = record { reading = true; writing = true };
  output = record {
    buffer = replicate 8 0 ++ (7 ∷ 7 ∷ replicate 6 0);
    reader_index = 8;
    writer_index = 10;
  };
  sent = 7 ∷ [];
}

abbrev after_task : Served
after_task = record {
  loop = run_functor 7 [] (begin_functors woken_loop);
  conn = sent_conn;
  read = message_of 7;
}

after_task-Steps : Steps message_of keeps before_task after_task
unfolding send_in_loop begin_functors run_functor readable_bytes keep_rest append
    ensure_writable_bytes direct_write warn enable_writing
after_task-Steps = next at_task-Steps (
    sends_task at_task (wrote 1) 7 [] (message_of 7) sent_conn refl refl refl (λ k. refl)
      (record { takes = omega arith; whole = refl; small = omega arith; fits = omega arith }) refl)

Steps-in_order_example :
    (stream after_task.conn ≡ after_task.read)
    × (all_stay message_of keeps after_task.loop.done ≡ true
        → stream after_task.conn ≡ texts message_of after_task.loop.done)
    × (after_task.loop.done ++ (after_task.loop.functors ++ after_task.loop.pending_functors)
        ≡ after_task.loop.queued)
    × (after_task.loop.functors ≡ []
        → after_task.loop.pending_functors ≡ []
        → all_stay message_of keeps after_task.loop.queued ≡ true
        → stream after_task.conn ≡ texts message_of after_task.loop.queued)
    × ((w : Write) (bytes : List ℕ)
        → IsFair message_of keeps w bytes after_task.conn
        → (c : Conn) × (send_in_loop w bytes after_task.conn ≡ some c))
Steps-in_order_example = Steps-in_order message_of keeps [] after_task-Steps before_task-IsInOrder
