-- ===== src/Http/Request.antt =====
-- http/http_request.h: the fields of a request and their setters. A string is the list of its bytes; a
-- pair of pointers is the stretch between them.
use ryan_network_library.Prelude.{
  ℕ, ◌+◌, ◌≡◌, refl, ap₂, inl, inr, Bool, true, false, ◌&&◌, ◌||◌, List, [], ◌∷◌, arith, take, drop,
  leb, ◌==◌, if◌then◌else◌, Bool-cases,
}

pub data Method : Type 0 where
  invalid get post head put delete : Method

pub data Version : Type 0 where
  unknown http10 http11 : Version

pub record HttpRequest : Type 0 where
  pub method : Method
  pub version : Version
  pub path : List ℕ
  pub query : List ℕ
  pub receive_time : ℕ
  pub headers : List (List ℕ × List ℕ)

unfoldable pub new_request : HttpRequest
new_request = record {
  method = invalid;
  version = unknown;
  path = [];
  query = [];
  receive_time = 0;
  headers = [];
}

-- `operator==` of strings.
abbrev pub bytes_eq : List ℕ → List ℕ → Bool
bytes_eq [] [] = true
bytes_eq [] (y ∷ ys) = false
bytes_eq (x ∷ xs) [] = false
bytes_eq (x ∷ xs) (y ∷ ys) = (x == y) && bytes_eq xs ys

abbrev pub get_text : List ℕ
get_text = b'G' ∷ b'E' ∷ b'T' ∷ []

abbrev pub post_text : List ℕ
post_text = b'P' ∷ b'O' ∷ b'S' ∷ b'T' ∷ []

abbrev pub head_text : List ℕ
head_text = b'H' ∷ b'E' ∷ b'A' ∷ b'D' ∷ []

abbrev pub put_text : List ℕ
put_text = b'P' ∷ b'U' ∷ b'T' ∷ []

abbrev pub delete_text : List ℕ
delete_text = b'D' ∷ b'E' ∷ b'L' ∷ b'E' ∷ b'T' ∷ b'E' ∷ []

unfoldable pub method_of : List ℕ → Method
method_of m =
    if bytes_eq m get_text
    then get
    else (if bytes_eq m post_text
        then post
        else (if bytes_eq m head_text
            then head
            else (if bytes_eq m put_text
                then put
                else (if bytes_eq m delete_text then delete else invalid))))

abbrev pub is_valid_method : Method → Bool
is_valid_method invalid = false
is_valid_method _ = true

-- `SetMethod` stores the method and tells whether it is a known one.
unfoldable pub set_method : List ℕ → HttpRequest → Bool × HttpRequest
set_method m r = (is_valid_method (method_of m), record r { method = method_of m })

-- `MethodString`; what it gives for no known method is "UNKNOWN".
unfoldable pub method_string : Method → List ℕ
method_string get = get_text
method_string post = post_text
method_string head = head_text
method_string put = put_text
method_string delete = delete_text
method_string invalid = b'U' ∷ b'N' ∷ b'K' ∷ b'N' ∷ b'O' ∷ b'W' ∷ b'N' ∷ []

-- `isspace` of the C locale.
abbrev pub is_space : ℕ → Bool
is_space c = (leb 9 c && leb c 13) || (c == 32)

abbrev pub skip_spaces : List ℕ → List ℕ
skip_spaces [] = []
skip_spaces (x ∷ xs) = let rest = skip_spaces xs in if is_space x then rest else x ∷ xs

abbrev pub is_empty : List ℕ → Bool
is_empty [] = true
is_empty (x ∷ xs) = false

-- The loop that cuts white space from the end.
abbrev pub cut_spaces : List ℕ → List ℕ
cut_spaces [] = []
cut_spaces (x ∷ xs) =
    let rest = cut_spaces xs in if is_empty rest && is_space x then [] else x ∷ rest

-- `headers_[field] = value`.
unfoldable pub put_header : List ℕ → List ℕ → List (List ℕ × List ℕ) → List (List ℕ × List ℕ)
put_header field value [] = (field, value) ∷ []
put_header field value ((f, v) ∷ hs) =
    if bytes_eq f field then (f, value) ∷ hs else (f, v) ∷ put_header field value hs

-- `AddHeader`: the line, and where its colon stands.
unfoldable pub add_header : List ℕ → ℕ → HttpRequest → HttpRequest
add_header line colon r = record r {
  headers =
      put_header (take colon line) (cut_spaces (skip_spaces (drop (colon + 1) line))) r.headers;
}

-- `GetHeader`: the empty string for a missing field.
unfoldable pub get_header : List ℕ → List (List ℕ × List ℕ) → List ℕ
get_header field [] = []
get_header field ((f, v) ∷ hs) = if bytes_eq f field then v else get_header field hs

pub bytes_eq_refl : (xs : List ℕ) → bytes_eq xs xs ≡ true
bytes_eq_refl [] = refl
bytes_eq_refl (x ∷ xs) = ground (arith, bytes_eq_refl xs)

pub bytes_eq_sound : (xs ys : List ℕ) → bytes_eq xs ys ≡ true → xs ≡ ys
bytes_eq_sound [] [] e = refl
bytes_eq_sound [] (y ∷ ys) e = cc
bytes_eq_sound (x ∷ xs) [] e = cc
bytes_eq_sound (x ∷ xs) (y ∷ ys) e = ap₂ ◌∷◌ (ground arith) (bytes_eq_sound xs ys (ground arith))

-- A header that was put is the one that is found, and the other fields keep their values.
pub get_header-put_header :
    (field other value : List ℕ) (hs : List (List ℕ × List ℕ))
    → get_header other (put_header field value hs)
      ≡ (if bytes_eq field other then value else get_header other hs)
unfolding get_header put_header
get_header-put_header field other value [] = refl
get_header-put_header field other value ((f, v) ∷ hs) = elim (Bool-cases (bytes_eq f field)) [
  | inl hit ↦ rw (hit, bytes_eq_sound f field hit) (ground arith)
  | inr miss ↦ rw miss (
      ground (
        arith,
        get_header-put_header field other value hs,
        bytes_eq_sound f other,
        bytes_eq_sound field other,
        bytes_eq_refl field,
      ))
]

-- Every known method is read back from its own text.
pub method_of-method_string :
    (m : Method) → is_valid_method m ≡ true → method_of (method_string m) ≡ m
unfolding method_of method_string
method_of-method_string get e = refl
method_of-method_string post e = refl
method_of-method_string head e = refl
method_of-method_string put e = refl
method_of-method_string delete e = refl
method_of-method_string invalid e = cc
