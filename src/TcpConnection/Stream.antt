-- ===== src/TcpConnection/Stream.antt =====
-- The byte stream of a connection: what the socket took and what waits in the output buffer are the
-- messages, in order, and the channel asks for writability exactly while something waits.
use ryan_network_library.Prelude.{
  ℕ, ◌+◌, ◌-◌, ◌^◌, ◌≤◌, ◌<◌, ◌≡◌, refl, sym, ap, ◌∙◌, inl, inr, true, false, ◌&&◌, some, List, [],
  ◌∷◌, ◌++◌, append_assoc, append-nil, arith, length, take, drop, length-append, take-append-drop,
  length-drop, ltb, ◌==◌, if◌then◌else◌, ltb→lt, ltb_false→le, Bool-cases, take_all,
}
use ryan_network_library.Buffer.{retrieve, readable_bytes}
use ryan_network_library.Buffer.Layout.{IsValid, contents, IsValid-Layout, readable_bytes-Layout}
use ryan_network_library.Buffer.Space.{append_lem}
use ryan_network_library.Buffer.Front.{content_to_string_lem}
use ryan_network_library.Buffer.Queue.{retrieve_lem}
use ryan_network_library.Buffer.Fd.{Write, wrote, refused, write_fd}
use ryan_network_library.Channel.{enable_writing, disable_writing, is_writing}
use ryan_network_library.TcpConnection.{
  Conn, is_disconnected, is_fault, nwrote, writes_directly, warn, keep_rest, direct_write,
  send_in_loop, handle_write, after_drain, shutdown_in_loop,
}

pub record IsSynced (c : Conn) : Type 0 where
  pub valid : IsValid c.output
  pub flag :
      is_disconnected c.state ≡ false → is_writing c.events ≡ ltb 0 (length (contents c.output))

-- The bytes given to the connection that it still answers for.
abbrev pub stream : Conn → List ℕ
stream c = c.sent ++ contents c.output

pub nil_of_length : (xs : List ℕ) → length xs ≤ 0 → xs ≡ []
nil_of_length [] h = refl
nil_of_length (x ∷ xs) h = absurd (omega arith)

warn_keeps :
    (rest : List ℕ) (c : Conn) → ((warn rest c).sent ≡ c.sent) × ((warn rest c).state ≡ c.state)
unfolding warn
warn_keeps rest c = (ground arith, ground arith)

keep_rest_lem :
    (rest : List ℕ) (c : Conn)
    → IsValid c.output
    → 0 < length rest
    → length rest < 2 ^ 31
    → length c.output.buffer + length rest < 2 ^ 62
    → (c' : Conn) × (keep_rest rest c ≡ some c')
      × IsSynced c'
      × (c'.state ≡ c.state)
      × (stream c' ≡ stream c ++ rest)
      × (length c'.output.buffer ≤ length c.output.buffer + length rest)
unfolding keep_rest enable_writing
keep_rest_lem rest c v some_rest small fits =
    let (output, e, v', k, g) = append_lem c.output rest v small fits in
    (
      record (warn rest c) {
        output = output;
        events = if is_writing c.events then c.events else enable_writing c.events;
      },
      rw e refl,
      record {
        valid = v';
        flag = λ _. rw k (ground (arith, length-append (contents c.output) rest));
      },
      (warn_keeps rest c).1,
      rw ((warn_keeps rest c).0, k) (sym (append_assoc c.sent (contents c.output) rest)),
      g,
    )

direct_write_keeps :
    (w : Write) (message : List ℕ) (c : Conn)
    → ((direct_write w message c).output ≡ c.output)
      × ((direct_write w message c).state ≡ c.state)
      × ((direct_write w message c).events ≡ c.events)
      × ((direct_write w message c).sent ≡ c.sent ++ take (nwrote w) message)
unfolding direct_write
direct_write_keeps (wrote n) message c = (ground arith, ground arith, ground arith, ground arith)
direct_write_keeps (refused errno) message c = (refl, refl, refl, sym (append-nil c.sent))

fault_zero : (w : Write) → is_fault w ≡ true → nwrote w ≡ 0
fault_zero (wrote n) e = cc
fault_zero (refused errno) e = refl

-- A direct write happens on an empty output buffer.
direct_empty :
    (c : Conn)
    → IsValid c.output
    → writes_directly c ≡ true
    → (is_writing c.events ≡ false) × (contents c.output ≡ [])
direct_empty c v e = (
  ground arith,
  nil_of_length (contents c.output) (ground (arith, readable_bytes-Layout (IsValid-Layout v))),
)

-- What `SendInLoop` answers for: nothing after a broken connection shows at the direct write.
abbrev pub accepted : Write → List ℕ → Conn → List ℕ
accepted w message c = if writes_directly c && is_fault w then [] else message

send_directly :
    (w : Write) (message : List ℕ) (c : Conn)
    → IsSynced c
    → is_disconnected c.state ≡ false
    → writes_directly c ≡ true
    → nwrote w ≤ length message
    → length message < 2 ^ 31
    → length c.output.buffer + length message < 2 ^ 62
    → (c' : Conn) × (send_in_loop w message c ≡ some c')
      × IsSynced c'
      × (c'.state ≡ c.state)
      × (stream c' ≡ stream c ++ (if is_fault w then [] else message))
      × (length c'.output.buffer ≤ length c.output.buffer + length message)
unfolding send_in_loop
send_directly w message c s live direct n small fits =
    let c' = direct_write w message c in
    let (out, st, ev, sn) = direct_write_keeps w message c in
    let (quiet, empty) = direct_empty c s.valid direct in
    let rest = drop (nwrote w) message in
    let kept : IsSynced c' = record {
      valid = rw out s.valid;
      flag = λ _. rw (out, ev, quiet, empty);
    } in
    let delivered : stream c' ≡ c.sent ++ take (nwrote w) message =
      rw (sn, out, empty) (append-nil (c.sent ++ take (nwrote w) message)) in
    let whole : stream c ≡ c.sent = rw empty (append-nil c.sent) in
    let size : length c'.output.buffer ≡ length c.output.buffer = ap (λ b. length b.buffer) out in
    let left : length rest ≡ length message - nwrote w = length-drop (nwrote w) message in
    elim (Bool-cases (is_fault w)) [
      | inl bad ↦ (
        c',
        rw (live, direct, bad),
        kept,
        st,
        delivered ∙ rw (bad, fault_zero w bad, whole),
        omega (arith, size),
      )
      | inr good ↦ elim (Bool-cases (ltb 0 (length rest))) [
        | inl more ↦
            let (c'', e, s', st', k, g) =
              keep_rest_lem rest c' kept.valid (ltb→lt _ _ more) (omega (arith, left))
                (omega (arith, left, size)) in
            (
              c'',
              rw (live, direct, good, more) e,
              s',
              st' ∙ st,
              k
                  ∙ rw (delivered, whole, good)
                      (rw (append_assoc, take-append-drop (nwrote w) message)),
              omega (arith, g, size, left),
            )
        | inr done ↦ (
          c',
          rw (live, direct, good, done),
          kept,
          st,
          delivered
              ∙ rw (
                whole,
                good,
                take_all (nwrote w) message (omega (arith, left, ltb_false→le _ _ done)),
              ),
          omega (arith, size),
        )
      ]
    ]

send_buffered :
    (w : Write) (message : List ℕ) (c : Conn)
    → IsSynced c
    → is_disconnected c.state ≡ false
    → writes_directly c ≡ false
    → length message < 2 ^ 31
    → length c.output.buffer + length message < 2 ^ 62
    → (c' : Conn) × (send_in_loop w message c ≡ some c')
      × IsSynced c'
      × (c'.state ≡ c.state)
      × (stream c' ≡ stream c ++ message)
      × (length c'.output.buffer ≤ length c.output.buffer + length message)
unfolding send_in_loop
send_buffered w message c s live direct small fits = elim (Bool-cases (ltb 0 (length message))) [
  | inl more ↦
      let (c', e, s', st, k, g) = keep_rest_lem message c s.valid (ltb→lt _ _ more) small fits in
      (c', rw (live, direct, more) e, s', st, k, g)
  | inr done ↦ (
    c,
    rw (live, direct, done),
    s,
    refl,
    rw (nil_of_length message (ltb_false→le _ _ done)) (sym (append-nil (stream c))),
    omega arith,
  )
]

-- `SendInLoop` on a synced connection that is not disconnected, for a message below 2 ^ 31 bytes of
-- which `write` takes no more than all: no fault; the connection stays synced and in its state; the
-- bytes sent and waiting are the old ones followed by the message, or the old ones alone where the
-- direct write met a broken connection (EPIPE or ECONNRESET).
pub send_in_loop_lem :
    (w : Write) (message : List ℕ) (c : Conn)
    → IsSynced c
    → is_disconnected c.state ≡ false
    → nwrote w ≤ length message
    → length message < 2 ^ 31
    → length c.output.buffer + length message < 2 ^ 62
    → (c' : Conn) × (send_in_loop w message c ≡ some c')
      × IsSynced c'
      × (c'.state ≡ c.state)
      × (stream c' ≡ stream c ++ accepted w message c)
      × (length c'.output.buffer ≤ length c.output.buffer + length message)
send_in_loop_lem w message c s live n small fits = elim (Bool-cases (writes_directly c)) [
  | inl direct ↦
      let (c', e, s', st, k, g) = send_directly w message c s live direct n small fits in
      (c', e, s', st, rw direct k, g)
  | inr waits ↦
      let (c', e, s', st, k, g) = send_buffered w message c s live waits small fits in
      (c', e, s', st, rw waits k, g)
]

after_drain_keeps :
    (c : Conn)
    → ((after_drain c).output ≡ c.output)
      × ((after_drain c).sent ≡ c.sent)
      × ((after_drain c).state ≡ c.state)
      × (is_writing (after_drain c).events ≡ false)
unfolding shutdown_in_loop disable_writing
after_drain_keeps c = (ground arith, ground arith, ground arith, ground arith)

abbrev taken : (n : ℕ) (c : Conn) → Conn
taken n c = record c { output = retrieve n c.output; sent = c.sent ++ take n (contents c.output) }

stream-taken : (n : ℕ) (c : Conn) → IsValid c.output → stream (taken n c) ≡ stream c
stream-taken n c v =
    rw ((retrieve_lem n c.output v).1) (rw (append_assoc, take-append-drop n (contents c.output)))

pub handle_write-wrote :
    (n : ℕ) (c : Conn)
    → IsSynced c
    → is_disconnected c.state ≡ false
    → is_writing c.events ≡ true
    → (c' : Conn) × (handle_write (wrote n) c ≡ some c')
      × IsSynced c'
      × (c'.state ≡ c.state)
      × (stream c' ≡ stream c)
      × (length c'.output.buffer ≡ length c.output.buffer)
unfolding handle_write write_fd
handle_write-wrote n c s live writing =
    let (v, k, size) = retrieve_lem n c.output s.valid in
    let readable : readable_bytes (retrieve n c.output) ≡ length (contents (retrieve n c.output)) =
      readable_bytes-Layout (IsValid-Layout v) in
    let (out, sn, st, quiet) = after_drain_keeps (taken n c) in
    elim (Bool-cases (ltb 0 n)) [
      | inr nothing ↦ (c, rw (writing, content_to_string_lem s.valid, nothing), s, refl, refl, refl)
      | inl some_taken ↦ elim (Bool-cases (readable_bytes (retrieve n c.output) == 0)) [
        | inl drained ↦ (
          after_drain (taken n c),
          rw (writing, content_to_string_lem s.valid, some_taken, drained),
          record { valid = rw out v; flag = λ _. rw (quiet, out) (ground (arith, readable)) },
          st,
          rw (sn, out) (stream-taken n c s.valid),
          rw out size,
        )
        | inr left ↦ (
          taken n c,
          rw (writing, content_to_string_lem s.valid, some_taken, left),
          record { valid = v; flag = λ _. rw writing (ground (arith, readable)) },
          refl,
          stream-taken n c s.valid,
          size,
        )
      ]
    ]

pub handle_write-refused :
    (errno : ℕ) (c : Conn) → IsSynced c → handle_write (refused errno) c ≡ some c
unfolding handle_write write_fd
handle_write-refused errno c s = rw (content_to_string_lem s.valid) (ground arith)
