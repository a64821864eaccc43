-- ===== src/Logger/Lines.antt =====
-- The text of a line of the log.
use ryan_network_library.Prelude.{
  ℕ, ◌+◌, ◌^◌, ◌≤◌, ◌<◌, ◌≡◌, ◌≢◌, ◌⊎◌, inl, inr, refl, ap, ◌∙◌, true, none, some, List, [], ◌∷◌,
  ◌++◌, arith, length, take, length-append, length-take, lt→ltb, le→leb, ℤ, pos, magnitude,
}
use Prim.Native.Char.{code}
use Prim.Native.String.{String}
use ryan_network_library.FixedBuffer.{
  FixedBuffer, append, text, IsValid, has_room, has_more_than, append_bounded,
}
use ryan_network_library.LogStream.{
  max_numeric_size, format_integer, put_char, put_string, put_general,
}
use ryan_network_library.LogStream.Digits.{read_integer}
use ryan_network_library.LogStream.Numbers.{read_integer-format_integer}
use ryan_network_library.Logger.{
  LogLevel, trace, debug, info, warn, error, fatal, level_name, after_slash, source_file, Logger,
  format_time, put_errno, new_logger, finish,
}

-- A buffer with this text, in a storage of this size.
pub record HasText (size : ℕ) (t : List ℕ) (b : FixedBuffer) : Type 0 where
  pub valid : IsValid b
  pub storage : length b.data_ ≡ size
  pub holds : text b ≡ t

curr-HasText : (size : ℕ) (t : List ℕ) (b : FixedBuffer) → HasText size t b → b.curr ≡ length t
curr-HasText size t b h =
    omega (arith, ap length h.holds, length-take b.curr b.data_, h.valid.within)

-- Bytes for which there is room.
append_fits :
    (size : ℕ) (t bytes : List ℕ) (b : FixedBuffer)
    → HasText size t b
    → size < 2 ^ 31
    → length t + length bytes < size
    → (b' : FixedBuffer) × (append bytes b ≡ some b') × HasText size (t ++ bytes) b'
append_fits size t bytes b h int_size fits =
    let c = curr-HasText size t b h in
    let (b', e, v, n, k, _) = append_bounded bytes b h.valid (omega arith) in
    let room : has_more_than (length bytes) b ≡ true =
      lt→ltb (b.curr + length bytes) (length b.data_) (omega (arith, c, h.storage)) in
    (b', e, record { valid = v; storage = n ∙ h.storage; holds = rw (room, h.holds) at k })

-- A number for which there is room.
integer_fits :
    (size : ℕ) (t : List ℕ) (num : ℤ) (b : FixedBuffer)
    → HasText size t b
    → magnitude num < 2 ^ 64
    → length t + 48 ≤ size
    → (b' : FixedBuffer) × (word : List ℕ) × (format_integer num b ≡ some b')
      × HasText size (t ++ word) b'
      × (read_integer word ≡ some num)
      × (length word ≤ 21)
integer_fits size t num b h small fits =
    let c = curr-HasText size t b h in
    let room : has_room max_numeric_size b ≡ true =
      le→leb (b.curr + 48) (length b.data_) (omega (arith, c, h.storage)) in
    let (b', word, e, v, k, r, short, n) =
      (read_integer-format_integer num b h.valid small).0 room in
    (
      b',
      word,
      e,
      record { valid = v; storage = n ∙ h.storage; holds = k ∙ ap (λ x. x ++ word) h.holds },
      r,
      short,
    )

-- The code points of a text.
abbrev pub codes : String → List ℕ
codes String.[] = []
codes (String.◌∷◌ c s) = code c ∷ codes s

abbrev pub level_word : LogLevel → String
level_word trace = "TRACE "
level_word debug = "DEBUG "
level_word info = "INFO  "
level_word warn = "WARN  "
level_word error = "ERROR "
level_word fatal = "FATAL "

level_name_lem : (level : LogLevel) → level_name level ≡ codes (level_word level)
level_name_lem trace = refl
level_name_lem debug = refl
level_name_lem info = refl
level_name_lem warn = refl
level_name_lem error = refl
level_name_lem fatal = refl

-- No byte is a slash.
abbrev pub HasNoSlash : List ℕ → Type 0
HasNoSlash [] = Unit {0}
HasNoSlash (c ∷ cs) = (c ≢ b'/') × HasNoSlash cs

-- The file's name without its folders.
abbrev pub IsBasename : List ℕ → List ℕ → Type 0
IsBasename file name =
    HasNoSlash name × ((file ≡ name) ⊎ ((folder : List ℕ) × (file ≡ folder ++ (b'/' ∷ name))))

after_slash-none : (name : List ℕ) → HasNoSlash name → after_slash name ≡ none
after_slash-none [] h = refl
after_slash-none (c ∷ cs) h = rw (after_slash-none cs h.1) (ground (arith, h.0))

after_slash-append :
    (folder name : List ℕ) → HasNoSlash name → after_slash (folder ++ (b'/' ∷ name)) ≡ some name
after_slash-append [] name h = rw (after_slash-none name h) refl
after_slash-append (c ∷ cs) name h = rw (after_slash-append cs name h) refl

source_file-name : (name : List ℕ) → HasNoSlash name → source_file name ≡ name
source_file-name name h = rw (source_file, after_slash-none name h) refl

source_file-folder :
    (folder name : List ℕ) → HasNoSlash name → source_file (folder ++ (b'/' ∷ name)) ≡ name
source_file-folder folder name h = rw (source_file, after_slash-append folder name h) refl

source_file_lem : (file name : List ℕ) → IsBasename file name → source_file file ≡ name
source_file_lem file name (h, inl same) = ap source_file same ∙ source_file-name name h
source_file_lem file name (h, inr (folder, e)) = ap source_file e ∙ source_file-folder folder name h

-- The time, the microseconds and the level in front of a line.
abbrev pub front_text : List ℕ → List ℕ → LogLevel → List ℕ
front_text time microseconds level =
    ((take 20 (time ++ (0 ∷ [])) ++ (b'.' ∷ [])) ++ take 7 microseconds) ++ codes (level_word level)

-- The file and the line's number behind it.
abbrev pub back_text : List ℕ → List ℕ → List ℕ → List ℕ
back_text t basename word =
    ((((t ++ (b' ' ∷ b'-' ∷ b' ' ∷ [])) ++ basename) ++ (b':' ∷ [])) ++ word) ++ (10 ∷ [])

length-level_name : (level : LogLevel) → length (codes (level_word level)) ≡ 6
length-level_name trace = refl
length-level_name debug = refl
length-level_name info = refl
length-level_name warn = refl
length-level_name error = refl
length-level_name fatal = refl

length-front_text :
    (time microseconds : List ℕ) (level : LogLevel)
    → (length (take 20 (time ++ (0 ∷ []))) ≤ 20)
      × (length (take 7 microseconds) ≤ 7)
      × (length (front_text time microseconds level)
          ≡ length (take 20 (time ++ (0 ∷ []))) + 1 + length (take 7 microseconds) + 6)
length-front_text time microseconds level =
    let t = take 20 (time ++ (0 ∷ [])) in
    let m = take 7 microseconds in
    (
      omega (arith, length-take 20 (time ++ (0 ∷ []))),
      omega (arith, length-take 7 microseconds),
      omega (
        arith,
        length-append t (b'.' ∷ []),
        length-append (t ++ (b'.' ∷ [])) m,
        length-append ((t ++ (b'.' ∷ [])) ++ m) (codes (level_word level)),
        length-level_name level,
      ),
    )

new_logger_lem :
    (size : ℕ) (time microseconds errno_msg : List ℕ) (level : LogLevel) (file : List ℕ) (line : ℤ)
    (empty : FixedBuffer)
    → HasText size [] empty
    → size < 2 ^ 31
    → 34 < size
    → (b : FixedBuffer) × (new_logger time microseconds errno_msg level (pos 0) file line empty
        ≡ some (record { stream = b; level = level; line = line; basename = source_file file }))
      × HasText size (front_text time microseconds level) b
unfolding new_logger format_time put_errno put_general put_string
new_logger_lem size time microseconds errno_msg level file line empty h int_size fits =
    let t = take 20 (time ++ (0 ∷ [])) in
    let m = take 7 microseconds in
    let (short_t, short_m, n) = length-front_text time microseconds level in
    let n1 = length-append t (b'.' ∷ []) in
    let n2 = length-append (t ++ (b'.' ∷ [])) m in
    let (b1, e1, h1) = append_fits size [] t empty h int_size (omega (arith, short_t)) in
    let (b2, e2, h2) = append_fits size t (b'.' ∷ []) b1 h1 int_size (omega (arith, short_t)) in
    let (b3, e3, h3) =
      append_fits size (t ++ (b'.' ∷ [])) m b2 h2 int_size (omega (arith, short_t, short_m, n1)) in
    let (b4, e4, h4) =
      append_fits size ((t ++ (b'.' ∷ [])) ++ m) (codes (level_word level)) b3 h3 int_size
        (omega (arith, short_t, short_m, n1, n2, length-level_name level)) in
    (b4, rw (level_name_lem level, e1, e2, e3, e4) refl, h4)

-- `Finish` of a stream with room for it.
finish_lem :
    (size : ℕ) (t : List ℕ) (l : Logger)
    → HasText size t l.stream
    → size < 2 ^ 31
    → magnitude l.line < 2 ^ 64
    → length t + length l.basename + 52 ≤ size
    → (b : FixedBuffer) × (word : List ℕ) × (finish l ≡ some (record l { stream = b }))
      × HasText size (back_text t l.basename word) b
      × (read_integer word ≡ some l.line)
unfolding finish put_general put_string put_char
finish_lem size t l h int_size small fits =
    let dash = b' ' ∷ b'-' ∷ b' ' ∷ [] in
    let t1 = t ++ dash in
    let t2 = t1 ++ l.basename in
    let t3 = t2 ++ (b':' ∷ []) in
    let n1 : length t1 ≡ length t + 3 = omega (arith, length-append t dash) in
    let n2 : length t2 ≡ length t1 + length l.basename = length-append t1 l.basename in
    let n3 : length t3 ≡ length t2 + 1 = omega (arith, length-append t2 (b':' ∷ [])) in
    let (b1, e1, h1) = append_fits size t dash l.stream h int_size (omega arith) in
    let (b2, e2, h2) = append_fits size t1 l.basename b1 h1 int_size (omega (arith, n1)) in
    let (b3, e3, h3) = append_fits size t2 (b':' ∷ []) b2 h2 int_size (omega (arith, n1, n2)) in
    let (b4, word, e4, h4, r, short) =
      integer_fits size t3 l.line b3 h3 small (omega (arith, n1, n2, n3)) in
    let n4 : length (t3 ++ word) ≡ length t3 + length word = length-append t3 word in
    let (b5, e5, h5) =
      append_fits size (t3 ++ word) (10 ∷ []) b4 h4 int_size
        (omega (arith, n1, n2, n3, n4, short)) in
    (b5, word, rw (e1, e2, e3, e4, e5) refl, h5, r)

-- A line without an error number, of a message put into it as one string, in an empty stream whose
-- size is that of an int and that has room for it all, with a line number of at most 64 bits: the
-- stream's text is then the time, the microseconds, the level's six letters, the message, the file's
-- name without its folders and a word that is read as the line's number, with the marks between them,
-- and a line end.
pub log_line :
    (size : ℕ) (time microseconds errno_msg : List ℕ) (level : LogLevel)
    (file basename message : List ℕ) (line : ℤ) (empty : FixedBuffer)
    → HasText size [] empty
    → IsBasename file basename
    → size < 2 ^ 31
    → magnitude line < 2 ^ 64
    → length message + length basename + 86 ≤ size
    → (l : Logger) × (b : FixedBuffer) × (l' : Logger) × (word : List ℕ) × (new_logger time
          microseconds errno_msg level
          (pos 0)
          file
          line
          empty
        ≡ some l)
      × (put_string message l.stream ≡ some b)
      × (finish (record l { stream = b }) ≡ some l')
      × (text l'.stream ≡ back_text (front_text time microseconds level ++ message) basename word)
      × (read_integer word ≡ some line)
unfolding put_string
log_line size time microseconds errno_msg level file basename message line empty h named int_size
      small fits =
    let t = front_text time microseconds level in
    let (short_t, short_m, n) = length-front_text time microseconds level in
    let (b, e, k) =
      new_logger_lem size time microseconds errno_msg level file line empty h int_size
        (omega arith) in
    let (b', e', k') =
      append_fits size t message b k int_size (omega (arith, n, short_t, short_m)) in
    let l : Logger = record { stream = b; level = level; line = line; basename = basename } in
    let n' = length-append t message in
    let (b'', word, e'', k'', r) =
      finish_lem size (t ++ message) (record l { stream = b' }) k' int_size small
        (omega (arith, n, n', short_t, short_m)) in
    (
      l,
      b',
      record l { stream = b'' },
      word,
      e ∙ rw (source_file_lem file basename named) refl,
      e',
      e'',
      k''.holds,
      r,
    )
