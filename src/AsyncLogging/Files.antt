-- ===== src/AsyncLogging/Files.antt =====
-- What the files of logger/log_file.cc hold after the writing thread of logger/async_logging.cc.
use ryan_network_library.Prelude.{
  ℕ, suc, ◌+◌, ◌^◌, ◌≤◌, ◌<◌, ◌≡◌, refl, sym, ap, ◌∙◌, some, List, [], ◌∷◌, ◌++◌, append_assoc,
  append-nil, arith, length, drop, length-append, length-take, length-drop, take-append-drop,
  take_all, lt→ltb,
}
use ryan_network_library.FixedBuffer.{FixedBuffer, to_string, buffer_length, text}
use ryan_network_library.AsyncLogging.{
  AsyncLogging, Phase, waiting, collected, output, append_line, collect, put_out, refill,
  file_bytes, start,
}
use ryan_network_library.AsyncLogging.Order.{
  logged, IsSized, IsValid, AllSized, append_line-IsValid,
}
use ryan_network_library.AsyncLogging.Writer.{collect-IsValid, put_out-IsValid, refill-IsValid}
use ryan_network_library.AsyncLogging.Runs.{start-IsValid}
use ryan_network_library.LogFile.{new_log_file, roll_file, open_file, LogFile}
use ryan_network_library.LogFile.Writing.{sum}
use ryan_network_library.LogFile.Rolling as Rolling
use ryan_network_library.LogFile.Rolling.{
  held, append_in_lock-IsValid, flush_file-IsValid, new_log_file-IsValid,
}
use ryan_network_library.AsyncLogging.Output.{
  Disk, Logging, put_buffers, write_on, Event, line_logged, written_on, step, run, bytes_of,
  AllFair, IsPadded,
}

module _ (size : ℕ) where
  -- The files have the buffers that were put out, and nothing else.
  pub record IsWritten (s : Logging) : Type 0 where
    pub front : IsValid size s.front
    pub files : Rolling.IsValid s.files
    pub padded : IsPadded size s.front.written (held s.files)

  whole_storage : (b : FixedBuffer) → IsSized size b → to_string b ≡ text b ++ drop b.curr b.data_
  unfolding to_string buffer_length
  whole_storage b s =
      take_all (length b.data_) b.data_ (omega arith) ∙ sym (take-append-drop b.curr b.data_)

  length-storage :
      (b : FixedBuffer) → IsSized size b → length (text b) + length (drop b.curr b.data_) ≡ size
  length-storage b s =
      omega (arith, length-take b.curr b.data_, length-drop b.curr b.data_, s.sized, s.valid.within)

  IsPadded-all : (bs : List FixedBuffer) → AllSized size bs → IsPadded size bs (file_bytes bs)
  unfolding file_bytes
  IsPadded-all [] h = refl
  IsPadded-all (b ∷ bs) (s, h) = (
    drop b.curr b.data_,
    file_bytes bs,
    rw (whole_storage b s) (append_assoc (text b) (drop b.curr b.data_) (file_bytes bs)),
    length-storage b s,
    IsPadded-all bs h,
  )

  IsPadded-append :
      (ws bs : List FixedBuffer) (out : List ℕ)
      → IsPadded size ws out
      → AllSized size bs
      → IsPadded size (ws ++ bs) (out ++ file_bytes bs)
  IsPadded-append [] bs out p h = rw p (IsPadded-all bs h)
  IsPadded-append (w ∷ ws) bs out (slack, rest, e, n, p) h = (
    slack,
    rest ++ file_bytes bs,
    rw
        (
          e,
          append_assoc (text w) (slack ++ rest) (file_bytes bs),
          append_assoc slack rest (file_bytes bs),
        )
        refl,
    n,
    IsPadded-append ws bs rest p h,
  )

  put_buffers-IsValid :
      (disk : ℕ → Disk) (bs : List FixedBuffer) (l : LogFile)
      → ((n : ℕ) → size ≤ sum (disk n).taken)
      → AllSized size bs
      → Rolling.IsValid l
      → (l' : LogFile) × (put_buffers disk bs l ≡ some l')
        × Rolling.IsValid l'
        × (held l' ≡ held l ++ file_bytes bs)
  unfolding put_buffers file_bytes
  put_buffers-IsValid disk [] l enough h v = (l, refl, v, sym (append-nil (held l)))
  put_buffers-IsValid disk (b ∷ bs) l enough (s, h) v =
      let n = length-storage b s in
      let m = length-append (text b) (drop b.curr b.data_) in
      let k = ap length (whole_storage b s) in
      let (l', e, w, g, _, _) =
        append_in_lock-IsValid (disk 0).taken (to_string b) (disk 0).now (disk 0).rolled l
          (omega (arith, n, m, k, enough 0)) v in
      let (l'', e', w', g') =
        put_buffers-IsValid (λ i. disk (suc i)) bs l' (λ i. enough (suc i)) h w in
      (l'', rw e e', w', g' ∙ rw g (append_assoc (held l) (to_string b) (file_bytes bs)))

  -- No other part touches what was put out.
  collect-written : (a a' : AsyncLogging) → collect a ≡ some a' → a'.written ≡ a.written
  unfolding collect
  collect-written a a' e = ground arith

  refill-written : (a a' : AsyncLogging) → refill a ≡ some a' → a'.written ≡ a.written
  unfolding refill
  refill-written a a' e = ground arith

  append_line-written :
      (memory line : List ℕ) (a a' : AsyncLogging)
      → append_line memory line a ≡ some a'
      → a'.written ≡ a.written
  unfolding append_line
  append_line-written memory line a a' e = ground arith

  -- The files do not change, or are only flushed.
  still_written :
      (s : Logging) (a' : AsyncLogging) (l' : LogFile)
      → IsWritten s
      → IsValid size a'
      → Rolling.IsValid l'
      → held l' ≡ held s.files
      → a'.written ≡ s.front.written
      → IsWritten (record { front = a'; files = l' })
  still_written s a' l' w v u h e = record { front = v; files = u; padded = rw (e, h) w.padded }

  write_on-IsWritten :
      (disk : ℕ → Disk) (s : Logging) (p : Phase)
      → s.front.phase ≡ p
      → ((n : ℕ) → size ≤ sum (disk n).taken)
      → IsWritten s
      → (s' : Logging) × (write_on disk s ≡ some s')
        × IsWritten s'
        × (logged s'.front ≡ logged s.front)
  unfolding write_on collect refill put_out
  write_on-IsWritten disk s waiting e enough w =
      let (a', f, v, g) = collect-IsValid size s.front w.front e (rw e at w.front.writer) in
      (
        record s { front = a' },
        rw (e, f) refl,
        still_written s a' s.files w v w.files refl (collect-written s.front a' f),
        g,
      )
  write_on-IsWritten disk s collected e enough w =
      let ready = rw e at w.front.writer in
      let (v, g) = put_out-IsValid size s.front w.front e ready in
      let (l', f, u, h) =
        put_buffers-IsValid disk s.front.buffers_to_write s.files enough ready.2 w.files in
      (
        record { front = put_out s.front; files = l' },
        rw (e, f) refl,
        record {
          front = v;
          files = u;
          padded = rw h (
              IsPadded-append s.front.written s.front.buffers_to_write (held s.files) w.padded
                ready.2);
        },
        g,
      )
  write_on-IsWritten disk s output e enough w =
      let (a', f, v, g) = refill-IsValid size s.front w.front e (rw e at w.front.writer) in
      let (l', f', u, h) = flush_file-IsValid s.files w.files in
      (
        record { front = a'; files = l' },
        rw (e, f, f') refl,
        still_written s a' l' w v u h (refill-written s.front a' f),
        g,
      )

  module _ (memory : List ℕ) (whole : length memory ≡ size) (int_size : size < 2 ^ 31) where
    -- Whatever lines shorter than a buffer the threads log, and wherever the writing thread is between
    -- them, with a disk that takes a whole buffer in every call, from a state where the files have
    -- exactly the buffers put out: no operation meets a null pointer, an empty vector or a missing
    -- file, and every loop of writing ends. The files then hold, over all their rolls and in order,
    -- exactly the texts of the buffers put out, each filled up to the size of a buffer; these texts,
    -- followed by what still waits in memory, are what was logged before and then the lines.
    pub run-IsWritten :
        (es : List Event) (s : Logging)
        → AllFair size es
        → IsWritten s
        → (s' : Logging) × (run memory es s ≡ some s')
          × IsWritten s'
          × (logged s'.front ≡ logged s.front ++ bytes_of es)
    unfolding run step
    run-IsWritten [] s fair w = (s, refl, w, sym (append-nil (logged s.front)))
    run-IsWritten (line_logged line ∷ es) s (fits, fair) w =
        let (a', e, v, l) =
          append_line-IsValid size memory whole int_size line s.front w.front fits in
        let kept =
          still_written s a' s.files w v w.files refl
            (append_line-written memory line s.front a' e) in
        let (s', f, x, m) = run-IsWritten es (record s { front = a' }) fair kept in
        (s', rw e f, x, rw (m, l) (append_assoc (logged s.front) line (bytes_of es)))
    run-IsWritten (written_on disk ∷ es) s (enough, fair) w =
        let (b, e, x, l) = write_on-IsWritten disk s s.front.phase refl enough w in
        let (s', f, y, m) = run-IsWritten es b fair x in (s', rw e f, y, rw (m, l) refl)

-- At the start nothing is put out, and the file is empty.
pub start-IsWritten :
    (size : ℕ) (memory : List ℕ) (now roll_size flush_interval check_every_n : ℕ)
    → length memory ≡ size
    → size < 2 ^ 31
    → 0 < now
    → IsWritten size (record {
      front = start memory;
      files = new_log_file now roll_size flush_interval check_every_n;
    })
unfolding start new_log_file roll_file open_file
start-IsWritten size memory now roll_size flush_interval check_every_n whole small late = record {
  front = start-IsValid size memory whole small;
  files = new_log_file-IsValid now roll_size flush_interval check_every_n late;
  padded = rw (new_log_file, lt→ltb 0 now late) refl;
}
