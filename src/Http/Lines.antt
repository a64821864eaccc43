-- ===== src/Http/Lines.antt =====
-- The lines of the HTTP parser of http/http_context.cc: how `std::find` cuts a request line and a header
-- line, and one round of the parser's loop on a buffer that begins with a line.
use ryan_network_library.Prelude.{
  ℕ, ◌+◌, ◌-◌, ◌≤◌, ◌≡◌, refl, sym, ap, ◌∙◌, ◌≢◌, true, false, some, List, [], ◌∷◌, ◌++◌,
  append-nil, arith, length, take, drop, length-append, ◌==◌, add64, sub64, take-append,
  drop-append, drop-append_add, take-take,
}
use ryan_network_library.Buffer.{Buffer, retrieve_until}
use ryan_network_library.Buffer.Layout.{IsValid, contents, length-contents}
use ryan_network_library.Buffer.Queue.{retrieve_lem}
use ryan_network_library.Buffer.Search.{find_crlf, find_crlf_lem, NoCrlf}
use ryan_network_library.Http.Request.{
  HttpRequest, Method, http11, get, post, head, put, delete, invalid, set_method, method_of,
  method_string, is_valid_method, method_of-method_string,
}
use ryan_network_library.Http.Context.{
  find, set_target, set_version, process_request_line, line_to, http1_text,
}

-- `c` is not among the bytes.
abbrev pub Lacks : ℕ → List ℕ → Type 0
Lacks c [] = Unit {0}
Lacks c (x ∷ xs) = (x ≢ c) × Lacks c xs

pub find-Lacks : (c : ℕ) (xs : List ℕ) → Lacks c xs → find c xs ≡ length xs
find-Lacks c [] h = refl
find-Lacks c (x ∷ xs) h = ground (arith, find-Lacks c xs)

pub find-append : (c : ℕ) (xs ys : List ℕ) → Lacks c xs → find c (xs ++ (c ∷ ys)) ≡ length xs
find-append c [] ys h = ground arith
find-append c (x ∷ xs) ys h = ground (arith, find-append c xs ys)

pub Lacks-append : (c : ℕ) (xs ys : List ℕ) → Lacks c xs → Lacks c ys → Lacks c (xs ++ ys)
Lacks-append c [] ys h k = k
Lacks-append c (x ∷ xs) ys h k = (h.0, Lacks-append c xs ys h.1 k)

-- A line with no carriage return has no "\r\n" before its end.
pub Lacks-NoCrlf : (xs : List ℕ) → Lacks 13 xs → NoCrlf (xs ++ (13 ∷ []))
Lacks-NoCrlf [] h = tt
Lacks-NoCrlf (x ∷ []) h = (λ e. h.0 e.0, tt)
Lacks-NoCrlf (x ∷ (y ∷ ys)) h = (λ e. h.0 e.0, Lacks-NoCrlf (y ∷ ys) h.1)

-- The pointer to the end of the first line, the line, and what is left behind it.
pub record Line (b : Buffer) (line rest : List ℕ) : Type 0 where
  pub end : ℕ
  pub found : find_crlf b ≡ some end
  pub text : line_to end b ≡ line
  pub valid : IsValid (retrieve_until (add64 end 2) b)
  pub left : contents (retrieve_until (add64 end 2) b) ≡ rest

pub cut-Line :
    (b : Buffer) (line rest : List ℕ)
    → IsValid b
    → NoCrlf (line ++ (13 ∷ []))
    → contents b ≡ line ++ (13 ∷ (10 ∷ rest))
    → Line b line rest
unfolding retrieve_until
cut-Line b line rest v h e =
    let (found, left) = (find_crlf_lem b v).0 line rest e h in
    record {
      end = b.reader_index + length line;
      found = found;
      text = rw distance (
          sym (
            take-take (length line) (b.writer_index - b.reader_index) (drop b.reader_index b.buffer)
              (omega (arith, size)))
          ∙ ap (take (length line)) e
          ∙ take-append (length line) line (13 ∷ (10 ∷ rest)) refl);
      valid = (retrieve_lem (sub64 (add64 (b.reader_index + length line) 2) b.reader_index) b v).0;
      left = rw next left;
    }
  where
    size : length line + 2 ≤ b.writer_index - b.reader_index
    size = omega (arith, length-contents v, ap length e, length-append line (13 ∷ (10 ∷ rest)))

    distance : sub64 (b.reader_index + length line) b.reader_index ≡ length line
    distance = omega (arith, size)

    next : add64 (b.reader_index + length line) 2 ≡ b.reader_index + length line + 2
    next = omega (arith, size)

pub first-Line :
    (b : Buffer) (line rest : List ℕ)
    → IsValid b
    → Lacks 13 line
    → contents b ≡ line ++ (13 ∷ (10 ∷ rest))
    → Line b line rest
first-Line b line rest v h e = cut-Line b line rest v (Lacks-NoCrlf line h) e

-- What `std::find` and the pointers around it give at the first `c`.
pub find_ne_end :
    (c : ℕ) (xs ys : List ℕ)
    → Lacks c xs
    → (find c (xs ++ (c ∷ ys)) == length (xs ++ (c ∷ ys))) ≡ false
find_ne_end c xs ys h = ground (arith, find-append c xs ys h, length-append xs (c ∷ ys))

pub take-find :
    (c : ℕ) (xs ys : List ℕ) → Lacks c xs → take (find c (xs ++ (c ∷ ys))) (xs ++ (c ∷ ys)) ≡ xs
take-find c xs ys h = rw (find-append c xs ys h) (take-append (length xs) xs (c ∷ ys) refl)

pub drop-find :
    (c : ℕ) (xs ys : List ℕ) → Lacks c xs → drop (find c (xs ++ (c ∷ ys)) + 1) (xs ++ (c ∷ ys)) ≡ ys
drop-find c xs ys h =
    rw (find-append c xs ys h) (drop-append_add (length xs + 1) 1 xs (c ∷ ys) refl)

-- The text of a request line.
unfoldable pub request_line : Method → List ℕ → List ℕ → List ℕ
request_line m path query =
    method_string m ++ (b' ' ∷ ((path ++ query) ++ (b' ' ∷ (http1_text ++ (b'1' ∷ [])))))

-- What the parser makes of it.
unfoldable pub with_line : Method → List ℕ → List ℕ → HttpRequest → HttpRequest
with_line m path query r = record r {
  method = m;
  path = path;
  query = elim query [ [] ↦ r.query | x ∷ xs ↦ x ∷ xs ];
  version = http11;
}

-- A query is empty or begins with its question mark.
abbrev pub IsQuery : List ℕ → Type 0
IsQuery [] = Unit {0}
IsQuery (x ∷ xs) = x ≡ b'?'

set_target_lem :
    (path query : List ℕ) (r : HttpRequest)
    → Lacks b'?' path
    → IsQuery query
    → set_target (path ++ query) r
      ≡ record r { path = path; query = elim query [ [] ↦ r.query | x ∷ xs ↦ x ∷ xs ] }
unfolding set_target
set_target_lem path [] r h k = rw (append-nil path, find-Lacks b'?' path h) (ground arith)
set_target_lem path (x ∷ xs) r h k = rw (
  k,
  find_ne_end b'?' path xs h,
  take-find b'?' path xs h,
  find-append b'?' path xs h,
  drop-append (length path) path (b'?' ∷ xs) refl,
)

method_string-Lacks_cr : (m : Method) → Lacks 13 (method_string m)
unfolding method_string
method_string-Lacks_cr get = omega arith
method_string-Lacks_cr post = omega arith
method_string-Lacks_cr head = omega arith
method_string-Lacks_cr put = omega arith
method_string-Lacks_cr delete = omega arith
method_string-Lacks_cr invalid = omega arith

pub request_line-Lacks :
    (m : Method) (path query : List ℕ)
    → Lacks 13 (path ++ query)
    → Lacks 13 (request_line m path query)
unfolding request_line
request_line-Lacks m path query h = Lacks-append 13 (method_string m) _ (method_string-Lacks_cr m) (
  omega arith,
  Lacks-append 13 (path ++ query) (b' ' ∷ (http1_text ++ (b'1' ∷ []))) h (omega arith),
)

method_string-Lacks : (m : Method) → Lacks b' ' (method_string m)
unfolding method_string
method_string-Lacks get = omega arith
method_string-Lacks post = omega arith
method_string-Lacks head = omega arith
method_string-Lacks put = omega arith
method_string-Lacks delete = omega arith
method_string-Lacks invalid = omega arith

process_request_line_cut :
    (name target version : List ℕ) (r : HttpRequest)
    → Lacks b' ' name
    → Lacks b' ' target
    → is_valid_method (method_of name) ≡ true
    → process_request_line (name ++ (b' ' ∷ (target ++ (b' ' ∷ version)))) r
      ≡ set_version version (set_target target (record r { method = method_of name }))
unfolding process_request_line set_method
process_request_line_cut name target version r h k known = rw (
  find_ne_end b' ' name (target ++ (b' ' ∷ version)) h,
  take-find b' ' name (target ++ (b' ' ∷ version)) h,
  drop-find b' ' name (target ++ (b' ' ∷ version)) h,
  known,
  find_ne_end b' ' target version k,
  take-find b' ' target version k,
  drop-find b' ' target version k,
)

set_version-http11 :
    (r : HttpRequest)
    → set_version (http1_text ++ (b'1' ∷ [])) r ≡ (true, record r { version = http11 })
unfolding set_version
set_version-http11 r = refl

-- A well-formed request line is read whole.
pub process_request_line_lem :
    (m : Method) (path query : List ℕ) (r : HttpRequest)
    → is_valid_method m ≡ true
    → Lacks b' ' (path ++ query)
    → Lacks b'?' path
    → IsQuery query
    → process_request_line (request_line m path query) r ≡ (true, with_line m path query r)
unfolding request_line with_line
process_request_line_lem m path query r known spaces marks q =
    let same : method_of (method_string m) ≡ m = method_of-method_string m known in
    process_request_line_cut (method_string m) (path ++ query) (http1_text ++ (b'1' ∷ [])) r
      (method_string-Lacks m) spaces (rw same known)
    ∙ rw
        (
          set_target_lem path query (record r { method = method_of (method_string m) }) marks q,
          same,
        )
        (set_version-http11 _)
