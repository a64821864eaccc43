-- ===== src/Http/Ending.antt =====
-- ParseRequest on any bytes: it ends, and reads a part of the buffer.
use ryan_network_library.Prelude.{
  ℕ, zero, suc, ◌<◌, ◌≡◌, refl, sym, ap, ◌∙◌, subst, ◌⊎◌, inl, inr, Bool, false, ◌&&◌, some, List,
  [], ◌∷◌, ◌++◌, append_assoc, arith, length, length-append, ◌==◌, Bool-cases, add64,
}
use ryan_network_library.Buffer.{Buffer, retrieve_until}
use ryan_network_library.Buffer.Layout.{IsValid, contents}
use ryan_network_library.Buffer.Search.{find_crlf_lem, NoCrlf}
use ryan_network_library.Http.Lines.{Line, cut-Line}
use ryan_network_library.Http.Context.{
  ParseState, expect_request_line, expect_headers, expect_body, got_all, HttpContext, Parsed, Round,
  more, stop, process_request_line, find, line_to, request_round, header_round, parse_round,
  parse_loop, parse_request, parse_loop-more, parse_loop-stop,
}

-- Any bytes have no "\r\n", or begin with a line that ends at their first one.
first_crlf :
    (xs : List ℕ)
    → NoCrlf xs
      ⊎ ((line : List ℕ) × (rest : List ℕ) × (xs ≡ line ++ (13 ∷ (10 ∷ rest)))
          × NoCrlf (line ++ (13 ∷ [])))
first_crlf [] = inl tt
first_crlf (x ∷ []) = inl tt
first_crlf (x ∷ (y ∷ ys)) = elim (Bool-cases ((x == 13) && (y == 10))) [
  | inl here ↦
      let e : x ≡ 13 = ground arith in
      let f : y ≡ 10 = ground arith in inr ([], ys, rw (e, f) refl, tt)
  | inr other ↦
      let not_here : ¬ ((x ≡ 13) × (y ≡ 10)) = λ h. absurd (ground (arith, h)) in
      elim (first_crlf (y ∷ ys)) [
        | inl h ↦ inl (not_here, h)
        | inr (line, rest, e, h) ↦
            inr (x ∷ line, rest, ap (λ zs. x ∷ zs) e, longer line rest not_here e h)
      ]
]
  where
    longer :
        (line rest : List ℕ)
        → ¬ ((x ≡ 13) × (y ≡ 10))
        → y ∷ ys ≡ line ++ (13 ∷ (10 ∷ rest))
        → NoCrlf (line ++ (13 ∷ []))
        → NoCrlf ((x ∷ line) ++ (13 ∷ []))
    longer [] rest n e h = (λ k. absurd (omega arith), tt)
    longer (l ∷ ls) rest n e h = let same : y ≡ l = cc in (λ k. n (k.0, same ∙ k.1), h)

-- The states in which the loop reads lines.
abbrev pub IsExpecting : ParseState → Type 0
IsExpecting expect_request_line = Unit {0}
IsExpecting expect_headers = Unit {0}
IsExpecting expect_body = ⊥
IsExpecting got_all = ⊥

-- A valid buffer with the content of another but its first bytes.
pub record IsRest (b b' : Buffer) : Type 0 where
  pub valid : IsValid b'
  pub consumed : List ℕ
  pub split : contents b ≡ consumed ++ contents b'

same-IsRest : (b : Buffer) → IsValid b → IsRest b b
same-IsRest b v = record { valid = v; consumed = []; split = refl }

Line-IsRest :
    (b : Buffer) (line rest : List ℕ) (l : Line b line rest)
    → contents b ≡ line ++ (13 ∷ (10 ∷ rest))
    → IsRest b (retrieve_until (add64 l.end 2) b)
      × (length (contents (retrieve_until (add64 l.end 2) b)) < length (contents b))
Line-IsRest b line rest l e = (
  record {
    valid = l.valid;
    consumed = line ++ (13 ∷ (10 ∷ []));
    split = rw (l.left, e) (sym (append_assoc line (13 ∷ (10 ∷ [])) rest));
  },
  omega (arith, ap length l.left, ap length e, length-append line (13 ∷ (10 ∷ rest))),
)

-- A round ends the loop, or takes a line and expects another.
IsStep : Buffer → Round → Type 0
IsStep b (more ok c b') =
    IsExpecting c.state × IsRest b b' × (length (contents b') < length (contents b))
IsStep b (stop p) = IsRest b p.buffer

request_round-IsStep :
    (line rest : List ℕ) (now : ℕ) (ok : Bool) (c : HttpContext) (b : Buffer) (l : Line b line rest)
    → IsValid b
    → contents b ≡ line ++ (13 ∷ (10 ∷ rest))
    → IsStep b (request_round (some l.end) now ok c b)
unfolding IsStep request_round
request_round-IsStep line rest now ok c b l v e =
    elim (Bool-cases (process_request_line (line_to l.end b) c.request).0) [
      | inl good ↦ let (k, less) = Line-IsRest b line rest l e in rw good (tt, k, less)
      | inr bad ↦ rw bad (same-IsRest b v)
    ]

header_round-IsStep :
    (line rest : List ℕ) (ok : Bool) (c : HttpContext) (b : Buffer) (l : Line b line rest)
    → IsExpecting c.state
    → contents b ≡ line ++ (13 ∷ (10 ∷ rest))
    → IsStep b (header_round (some l.end) ok c b)
unfolding IsStep header_round
header_round-IsStep line rest ok c b l x e =
    let (k, less) = Line-IsRest b line rest l e in
    elim (Bool-cases (find b':' (line_to l.end b) == length (line_to l.end b))) [
      | inl last ↦ rw last k
      | inr header ↦ rw header (x, k, less)
    ]

parse_round-IsStep :
    (s : ParseState) (now : ℕ) (ok : Bool) (c : HttpContext) (b : Buffer)
    → IsExpecting s
    → IsExpecting c.state
    → IsValid b
    → IsStep b (parse_round s now ok c b)
unfolding IsStep parse_round
parse_round-IsStep expect_body now ok c b x y v = absurd x
parse_round-IsStep got_all now ok c b x y v = absurd x
parse_round-IsStep expect_request_line now ok c b x y v = elim (first_crlf (contents b)) [
  | inl none_there ↦ rw ((find_crlf_lem b v).1 none_there) (same-IsRest b v)
  | inr (line, rest, e, h) ↦
      let l = cut-Line b line rest v h e in
      subst (λ o. IsStep b (request_round o now ok c b)) (sym l.found)
        (request_round-IsStep line rest now ok c b l v e)
]
parse_round-IsStep expect_headers now ok c b x y v = elim (first_crlf (contents b)) [
  | inl none_there ↦ rw ((find_crlf_lem b v).1 none_there) (same-IsRest b v)
  | inr (line, rest, e, h) ↦
      let l = cut-Line b line rest v h e in
      subst (λ o. IsStep b (header_round o ok c b)) (sym l.found)
        (header_round-IsStep line rest ok c b l y e)
]

IsRest-trans : (a b c : Buffer) → IsRest a b → IsRest b c → IsRest a c
IsRest-trans a b c h k = record {
  valid = k.valid;
  consumed = h.consumed ++ k.consumed;
  split = rw (h.split, k.split) (sym (append_assoc h.consumed k.consumed (contents c)));
}

-- The loop with this fuel ends from every buffer that is small enough.
abbrev Ends : ℕ → ℕ → Type 0
Ends fuel now =
    (ok : Bool) (c : HttpContext) (b : Buffer)
    → IsExpecting c.state
    → IsValid b
    → length (contents b) < fuel
    → (p : Parsed) × (parse_loop fuel now ok c b ≡ some p) × IsRest b p.buffer

after_round :
    (fuel now : ℕ) (ok : Bool) (c : HttpContext) (b : Buffer) (r : Round)
    → Ends fuel now
    → length (contents b) < suc fuel
    → parse_round c.state now ok c b ≡ r
    → IsStep b r
    → (p : Parsed) × (parse_loop (suc fuel) now ok c b ≡ some p) × IsRest b p.buffer
unfolding IsStep
after_round fuel now ok c b (more ok' c' b') ends enough e (y, k, less) =
    let (p, f, m) = ends ok' c' b' y k.valid (omega arith) in
    (p, parse_loop-more fuel now ok c b e ∙ f, IsRest-trans b b' p.buffer k m)
after_round fuel now ok c b (stop p) ends enough e k = (p, parse_loop-stop fuel now ok c b e, k)

parse_loop-IsRest : (fuel now : ℕ) → Ends fuel now
parse_loop-IsRest zero now ok c b x v enough = absurd (omega arith)
parse_loop-IsRest (suc fuel) now ok c b x v enough =
    after_round fuel now ok c b (parse_round c.state now ok c b) (parse_loop-IsRest fuel now) enough
      refl (parse_round-IsStep c.state now ok c b x x v)

-- A context that expects a request line or headers, and a valid buffer with any bytes, whole requests or
-- not. With more fuel than there are bytes `ParseRequest` returns; the buffer is valid then, and has the
-- bytes that it had but some of the first ones.
pub parse_request_ends :
    (fuel now : ℕ) (c : HttpContext) (b : Buffer)
    → IsExpecting c.state
    → IsValid b
    → length (contents b) < fuel
    → (p : Parsed) × (parse_request fuel now c b ≡ some p) × IsRest b p.buffer
unfolding parse_request
parse_request_ends fuel now c b x v enough = parse_loop-IsRest fuel now false c b x v enough
