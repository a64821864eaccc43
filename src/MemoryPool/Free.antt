-- ===== src/MemoryPool/Free.antt =====
-- What is given back: a chunk leaves its node, and the node is empty when its last chunk has left.
use ryan_network_library.Prelude.{
  ℕ, ◌+◌, ◌-◌, ◌%◌, ◌^◌, ◌≤◌, ◌<◌, ◌≡◌, refl, sym, ◌∙◌, subst, inl, inr, Bool, true, false, ◌&&◌,
  none, some, List, [], ◌∷◌, map, arith, length, leb, ◌==◌, if◌then◌else◌, ==_iff, Bool-cases,
}
use ryan_network_library.MemoryPool.{
  SmallNode, Pool, free_large, free_small, free_memory, empty_node, reset_pool,
}
use ryan_network_library.MemoryPool.Layout.{
  Chunk, IsStacked, IsNode, AllApart, IsLaid, IsValid, IsStacked-bounds, IsStacked-top,
  IsNode-small, SameFrames, SameFrames-refl, length-SameFrames, AllApart-SameFrames,
}

-- Whether a chunk starts at the address.
abbrev pub holds : ℕ → List Chunk → Bool
holds ptr [] = false
holds ptr (c ∷ cs) = if c.at == ptr then true else holds ptr cs

abbrev pub without : ℕ → List Chunk → List Chunk
without ptr [] = []
without ptr (c ∷ cs) = if c.at == ptr then cs else c ∷ without ptr cs

abbrev pub is_given : ℕ → List (List Chunk) → Bool
is_given ptr [] = false
is_given ptr (cs ∷ css) = if holds ptr cs then true else is_given ptr css

-- The chunks but the one that starts at the address.
abbrev pub given_back : ℕ → List (List Chunk) → List (List Chunk)
given_back ptr [] = []
given_back ptr (cs ∷ css) = if holds ptr cs then without ptr cs ∷ css else cs ∷ given_back ptr css

holds-bounds :
    (base top ptr : ℕ) (cs : List Chunk)
    → IsStacked base top cs
    → holds ptr cs ≡ true
    → (base ≤ ptr) × (ptr < top)
holds-bounds base top ptr [] h e = absurd (ground arith)
holds-bounds base top ptr (c ∷ cs) (h, k, l) e =
    let low = IsStacked-bounds base c.at cs l in
    elim (Bool-cases (c.at == ptr)) [
      | inl here ↦ let same = (==_iff c.at ptr).0 here in (omega arith, omega arith)
      | inr other ↦ let (a, b) = holds-bounds base c.at ptr cs l (rw other at e) in (a, omega arith)
    ]

without-IsStacked :
    (base top ptr : ℕ) (cs : List Chunk)
    → IsStacked base top cs
    → holds ptr cs ≡ true
    → IsStacked base top (without ptr cs) × (length (without ptr cs) + 1 ≡ length cs)
without-IsStacked base top ptr [] h e = absurd (ground arith)
without-IsStacked base top ptr (c ∷ cs) (h, k, l) e = elim (Bool-cases (c.at == ptr)) [
  | inl here ↦ rw here (IsStacked-top base c.at top cs (omega arith) l, omega arith)
  | inr other ↦
      let (a, b) = without-IsStacked base c.at ptr cs l (rw other at e) in
      rw other ((h, k, a), omega (arith, b))
]

-- A node without one of its chunks.
released-IsNode :
    (ptr : ℕ) (n : SmallNode) (cs : List Chunk)
    → IsNode true n cs
    → holds ptr cs ≡ true
    → IsNode true (record n { quote_ = (n.quote_ + (2 ^ 32 - 1)) % 2 ^ 32 }) (without ptr cs)
      × ((n.quote_ + (2 ^ 32 - 1)) % 2 ^ 32 ≡ length (without ptr cs))
released-IsNode ptr n cs v e =
    let (s, k) = without-IsStacked (n.address + 32) n.last_ ptr cs v.stacked e in
    let few = IsNode-small true n cs v in
    let left : (n.quote_ + (2 ^ 32 - 1)) % 2 ^ 32 ≡ length (without ptr cs) =
      omega (arith, k, v.quote refl) in
    (
      record {
        stacked = s;
        within = v.within;
        aligned = v.aligned;
        small = v.small;
        page = v.page;
        quote = λ e. left;
      },
      left,
    )

none_left : (cs : List Chunk) → length cs ≡ 0 → cs ≡ []
none_left [] e = refl
none_left (c ∷ cs) e = absurd (omega arith)

emptied-IsNode :
    (n : SmallNode) (cs : List Chunk) → IsNode true n cs → IsNode true (empty_node n) []
unfolding empty_node
emptied-IsNode n cs v =
    let high = IsStacked-bounds (n.address + 32) n.last_ cs v.stacked in
    record {
      stacked = omega arith;
      within = omega (arith, v.within);
      aligned = v.aligned;
      small = v.small;
      page = v.page;
      quote = λ e. refl;
    }

-- A chunk is not within a node that it is apart from.
outside :
    (ptr : ℕ) (n : SmallNode) (ns : List SmallNode) (css : List (List Chunk))
    → AllApart n.address n.end_ ns
    → IsLaid true ns css
    → is_given ptr css ≡ true
    → (leb n.address ptr && leb ptr n.end_) ≡ false
outside ptr n [] [] a h e = absurd (ground arith)
outside ptr n [] (cs ∷ css) a h e = absurd h
outside ptr n (m ∷ ns) [] a h e = absurd h
outside ptr n (m ∷ ns) (cs ∷ css) (a, b) (v, _, h) e = elim (Bool-cases (holds ptr cs)) [
  | inl here ↦
      let (low, high) = holds-bounds (m.address + 32) m.last_ ptr cs v.stacked here in
      ground (arith, a, v.within)
  | inr other ↦ outside ptr n ns css b h (rw other at e)
]

free_small-IsLaid :
    (ptr : ℕ) (ns : List SmallNode) (css : List (List Chunk))
    → IsLaid true ns css
    → is_given ptr css ≡ true
    → (emptied : Bool) × (ns' : List SmallNode) × (free_small ptr ns ≡ some (emptied, ns'))
      × IsLaid true ns' (given_back ptr css)
      × SameFrames ns ns'
unfolding free_small empty_node
free_small-IsLaid ptr [] [] h e = absurd (ground arith)
free_small-IsLaid ptr [] (cs ∷ css) h e = absurd h
free_small-IsLaid ptr (n ∷ ns) [] h e = absurd h
free_small-IsLaid ptr (n ∷ ns) (cs ∷ css) (v, a, h) e = elim (Bool-cases (holds ptr cs)) [
  | inl here ↦
      let (low, high) = holds-bounds (n.address + 32) n.last_ ptr cs v.stacked here in
      let inside : (leb n.address ptr && leb ptr n.end_) ≡ true = ground (arith, v.within) in
      let (w, left) = released-IsNode ptr n cs v here in
      elim (Bool-cases ((n.quote_ + (2 ^ 32 - 1)) % 2 ^ 32 == 0)) [
        | inl gone ↦
            let no_chunk : without ptr cs ≡ [] =
              none_left (without ptr cs)
                (sym left ∙ (==_iff ((n.quote_ + (2 ^ 32 - 1)) % 2 ^ 32) 0).0 gone) in
            (
              true,
              empty_node n ∷ ns,
              rw (inside, gone) refl,
              rw (here, no_chunk) (emptied-IsNode n cs v, a, h),
              (refl, refl, SameFrames-refl ns),
            )
        | inr some_left ↦ (
          false,
          record n { quote_ = (n.quote_ + (2 ^ 32 - 1)) % 2 ^ 32 } ∷ ns,
          rw (inside, some_left) refl,
          rw here (w, a, h),
          (refl, refl, SameFrames-refl ns),
        )
      ]
  | inr other ↦
      let later : is_given ptr css ≡ true = rw other at e in
      let (b, ns', f, k, s) = free_small-IsLaid ptr ns css h later in
      (
        b,
        n ∷ ns',
        rw (outside ptr n ns css a h later, f) refl,
        rw other (v, AllApart-SameFrames n.address n.end_ ns ns' s a, k),
        (refl, refl, s),
      )
]

-- The pool's chunks lie as `malloc` leaves them, each node counts its own, one of them starts at the address, and no large block
-- does. Then `FreeMemory` takes exactly this chunk from the pool's chunks, and they lie and are counted as before: a
-- node is taken to be empty only when the last of its chunks has left.
pub free_memory-IsValid :
    (ptr : ℕ) (p : Pool) (css : List (List Chunk))
    → IsValid true p css
    → is_given ptr css ≡ true
    → free_large ptr p.large_list_ ≡ none
    → IsValid true (free_memory ptr p) (given_back ptr css)
unfolding free_memory
free_memory-IsValid ptr p css v e not_large =
    let (b, ns, f, k, s) = free_small-IsLaid ptr p.small_list css v.laid e in
    let n = length-SameFrames p.small_list ns s in
    let freed : free_memory ptr p
        ≡ record p { small_list = ns; current_ = if b then 0 else p.current_ } =
      rw (free_memory, not_large, f) refl in
    subst (λ q. IsValid true q (given_back ptr css)) (sym freed)
      (record { laid = k; current = ground (arith, n, v.current) })

abbrev pub all_back : List (List Chunk) → List (List Chunk)
all_back [] = []
all_back (cs ∷ css) = [] ∷ all_back css

reset-IsLaid :
    (ns : List SmallNode) (css : List (List Chunk))
    → IsLaid true ns css
    → IsLaid true (map empty_node ns) (all_back css) × SameFrames ns (map empty_node ns)
unfolding empty_node
reset-IsLaid [] [] h = (tt, tt)
reset-IsLaid [] (cs ∷ css) h = absurd h
reset-IsLaid (n ∷ ns) [] h = absurd h
reset-IsLaid (n ∷ ns) (cs ∷ css) (v, a, h) =
    let (k, s) = reset-IsLaid ns css h in
    (
      (emptied-IsNode n cs v, AllApart-SameFrames n.address n.end_ ns (map empty_node ns) s a, k),
      (refl, refl, s),
    )

-- `ResetPool` leaves the same nodes, each without a chunk.
pub reset_pool-IsValid :
    (p : Pool) (css : List (List Chunk))
    → IsValid true p css
    → IsValid true (reset_pool p) (all_back css)
unfolding reset_pool
reset_pool-IsValid p css v =
    let (k, s) = reset-IsLaid p.small_list css v.laid in
    record {
      laid = k;
      current =
          omega (arith, v.current, length-SameFrames p.small_list (map empty_node p.small_list) s);
    }
