-- ===== src/TcpConnection/Queued.antt =====
-- Send of tcp_connection/tcp_connection.cc from other threads: each call queues a task in the loop of
-- net/event_loop.cc, and the loop's thread runs the tasks and serves the socket. The task of a
-- `Send(const std::string&)` has only a pointer to the caller's bytes and their number, so it sends what
-- is there when it runs; the task of a `Send(Buffer*)` owns its bytes.
use ryan_network_library.Prelude.{
  ℕ, ◌+◌, ◌^◌, ◌≤◌, ◌<◌, ◌≡◌, refl, sym, ap, ◌∙◌, subst, Bool, true, false, ◌&&◌, some, List, [],
  ◌∷◌, ◌++◌, append_assoc, append-nil, arith, length,
}
use ryan_network_library.Buffer.Fd.{Write}
use ryan_network_library.EventLoop.{
  EventLoop, handling, calling, run_functor, Step as LoopStep, IsAwake, Step-IsAwake, runs,
}
use ryan_network_library.TcpConnection.{
  Conn, is_disconnected, is_fault, nwrote, send_in_loop, handle_write,
}
use ryan_network_library.TcpConnection.Stream.{IsSynced, stream, accepted, send_in_loop_lem}
use ryan_network_library.TcpConnection.Runs.{writable, step, step-stream}

-- The loop, the connection that it serves, and the bytes that the tasks run so far have read.
pub record Served : Type 0 where
  pub loop : EventLoop
  pub conn : Conn
  pub read : List ℕ

module _ (message_of : ℕ → List ℕ) where
  abbrev pub texts : List ℕ → List ℕ
  texts [] = []
  texts (f ∷ fs) = message_of f ++ texts fs

  texts-append : (fs gs : List ℕ) → texts (fs ++ gs) ≡ texts fs ++ texts gs
  texts-append [] gs = refl
  texts-append (f ∷ fs) gs =
      rw (texts-append fs gs) (sym (append_assoc (message_of f) (texts fs) (texts gs)))

-- `message_of` is the message that a task was queued for, and `stays` whether these bytes are still there,
-- unchanged, when the task runs: always where it owns them, and otherwise if the caller keeps its string.
module _ (message_of : ℕ → List ℕ) (stays : ℕ → Bool) where
  abbrev pub all_stay : List ℕ → Bool
  all_stay [] = true
  all_stay (f ∷ fs) = stays f && all_stay fs

  -- A task that sends these bytes, with a `write` that takes no more than it is given and meets no broken connection, a
  -- message below 2 ^ 31 bytes and a storage below 2 ^ 62.
  pub record IsFair (w : Write) (bytes : List ℕ) (c : Conn) : Type 0 where
    pub takes : nwrote w ≤ length bytes
    pub whole : is_fault w ≡ false
    pub small : length bytes < 2 ^ 31
    pub fits : length c.output.buffer + length bytes < 2 ^ 62

  -- A step of any thread that runs no task, `SendInLoop` as the next task, or a writable socket.
  pub data Step : Served → Served → Type 0 where
    moves :
        (s : Served) (l : EventLoop)
        → LoopStep s.loop l
        → l.done ≡ s.loop.done
        → Step s (record s { loop = l })
    sends :
        (s : Served) (w : Write) (f : ℕ) (rest bytes : List ℕ) (c : Conn)
        → s.loop.phase ≡ calling
        → s.loop.functors ≡ f ∷ rest
        → s.loop.own_waking ≡ 0
        → (stays f ≡ true → bytes ≡ message_of f)
        → IsFair w bytes s.conn
        → send_in_loop w bytes s.conn ≡ some c
        → Step s (record { loop = run_functor f rest s.loop; conn = c; read = s.read ++ bytes })
    drains :
        (s : Served) (w : Write) (c : Conn)
        → s.loop.phase ≡ handling
        → s.loop.own_waking ≡ 0
        → handle_write w s.conn ≡ some c
        → Step s (record s { conn = c })

  pub data Steps (s : Served) : Served → Type 0 where
    here : Steps s s
    next : {t u : Served} → Steps s t → Step t u → Steps s u

  -- The bytes that the connection answers for are those of before and what the tasks that were run have
  -- read, which are their messages if all of these stayed.
  pub record IsInOrder (before : List ℕ) (s : Served) : Type 0 where
    pub awake : IsAwake s.loop
    pub synced : IsSynced s.conn
    pub live : is_disconnected s.conn.state ≡ false
    pub bytes : stream s.conn ≡ before ++ s.read
    pub whole : all_stay s.loop.done ≡ true → s.read ≡ texts message_of s.loop.done

  all_stay-append : (fs gs : List ℕ) → all_stay (fs ++ gs) ≡ all_stay fs && all_stay gs
  all_stay-append [] gs = refl
  all_stay-append (f ∷ fs) gs = ground (arith, all_stay-append fs gs)

  -- A fair task does not fault, and appends its message.
  send_fair :
      (w : Write) (bytes : List ℕ) (c : Conn)
      → IsSynced c
      → is_disconnected c.state ≡ false
      → IsFair w bytes c
      → (c' : Conn) × (send_in_loop w bytes c ≡ some c')
        × IsSynced c'
        × (c'.state ≡ c.state)
        × (stream c' ≡ stream c ++ bytes)
  send_fair w bytes c s live fair =
      let (c', e, s', st, k, _) =
        send_in_loop_lem w bytes c s live fair.takes fair.small fair.fits in
      let all_of : accepted w bytes c ≡ bytes = ground (arith, fair.whole) in
      (c', e, s', st, k ∙ ap (λ m. stream c ++ m) all_of)

  serve_socket :
      (w : Write) (c c' : Conn)
      → IsSynced c
      → is_disconnected c.state ≡ false
      → handle_write w c ≡ some c'
      → IsSynced c' × (c'.state ≡ c.state) × (stream c' ≡ stream c)
  unfolding step
  serve_socket w c c' s live e =
      let (u, f, s', st, k, _) =
        step-stream (writable w) c s live tt (omega (arith, s.valid.size)) in
      let same : u ≡ c' = cc in
      subst (λ v. IsSynced v × (v.state ≡ c.state) × (stream v ≡ stream c)) same
        (s', st, k ∙ append-nil (stream c))

  Step-IsInOrder :
      {s t : Served} (before : List ℕ) → Step s t → IsInOrder before s → IsInOrder before t
  unfolding run_functor
  Step-IsInOrder before (moves s l m e) v = record {
    awake = Step-IsAwake m v.awake;
    synced = v.synced;
    live = v.live;
    bytes = v.bytes;
    whole = λ all. v.whole (ap all_stay (sym e) ∙ all) ∙ ap (texts message_of) (sym e);
  }
  Step-IsInOrder before (sends s w f rest bytes c at e idle kept fair sent) v =
      let (u, g, s', st, k) = send_fair w bytes s.conn v.synced v.live fair in
      let same : u ≡ c = cc in
      let grown : stream c ≡ stream s.conn ++ bytes =
        subst (λ x. stream x ≡ stream s.conn ++ bytes) same k in
      let still : c.state ≡ s.conn.state = subst (λ x. x.state ≡ s.conn.state) same st in
      record {
        awake = Step-IsAwake (runs s.loop f rest at e idle) v.awake;
        synced = subst IsSynced same s';
        live = rw still v.live;
        bytes = grown ∙ ap (λ l. l ++ bytes) v.bytes ∙ append_assoc before s.read bytes;
        whole = λ all.
            let both = sym (all_stay-append s.loop.done (f ∷ [])) ∙ all in
            let stayed : stays f ≡ true = ground (arith, both) in
            let old : s.read ≡ texts message_of s.loop.done = v.whole (ground (arith, both)) in
            rw (texts-append message_of s.loop.done (f ∷ []), append-nil (message_of f))
              (ap (λ l. l ++ bytes) old
                ∙ ap (λ m. texts message_of s.loop.done ++ m) (kept stayed));
      }
  Step-IsInOrder before (drains s w c at idle e) v =
      let (s', st, k) = serve_socket w s.conn c v.synced v.live e in
      record {
        awake = v.awake;
        synced = s';
        live = rw st v.live;
        bytes = k ∙ v.bytes;
        whole = v.whole;
      }

  Steps-IsInOrder :
      {s t : Served} (before : List ℕ) → Steps s t → IsInOrder before s → IsInOrder before t
  Steps-IsInOrder before here v = v
  Steps-IsInOrder before (next ss st) v = Step-IsInOrder before st (Steps-IsInOrder before ss v)

  -- A loop that is awake and serves a synced connection that is not disconnected, and any steps of its
  -- thread and of the threads that send: what the socket took and what waits is, behind the bytes of
  -- before, what the tasks that were run found at their pointers, task by task, and those tasks with the
  -- taken and the waiting ones are all that were queued, in order. So when none is left, and every message
  -- stayed where it was until its task had run, every message that was sent from any thread is there,
  -- whole and in order. And wherever a fair task is next, it does not fault.
  pub Steps-in_order :
      {s t : Served} (before : List ℕ)
      → Steps s t
      → IsInOrder before s
      → (stream t.conn ≡ before ++ t.read)
        × (all_stay t.loop.done ≡ true → stream t.conn ≡ before ++ texts message_of t.loop.done)
        × (t.loop.done ++ (t.loop.functors ++ t.loop.pending_functors) ≡ t.loop.queued)
        × (t.loop.functors ≡ []
            → t.loop.pending_functors ≡ []
            → all_stay t.loop.queued ≡ true
            → stream t.conn ≡ before ++ texts message_of t.loop.queued)
        × ((w : Write) (bytes : List ℕ)
            → IsFair w bytes t.conn
            → (c : Conn) × (send_in_loop w bytes t.conn ≡ some c))
  Steps-in_order {s} {t} before ss v =
      let u = Steps-IsInOrder before ss v in
      (
        u.bytes,
        λ all. u.bytes ∙ ap (λ l. before ++ l) (u.whole all),
        u.awake.order,
        λ no_taken no_waiting all.
            let all_run : t.loop.done ≡ t.loop.queued =
              sym (append-nil t.loop.done)
              ∙ ap (λ fs. t.loop.done ++ fs)
                  (sym (ap (λ fs. fs ++ t.loop.pending_functors) no_taken ∙ no_waiting))
              ∙ u.awake.order in
            u.bytes
            ∙ ap (λ l. before ++ l)
                (u.whole (ap all_stay all_run ∙ all) ∙ ap (texts message_of) all_run),
        λ w bytes fair. let r = send_fair w bytes t.conn u.synced u.live fair in (r.0, r.1),
      )
