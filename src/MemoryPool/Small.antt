-- ===== src/MemoryPool/Small.antt =====
-- Small blocks: what malloc gives is inside a node and has nothing in common with what it gave before.
use ryan_network_library.Prelude.{Bool, true}
use ryan_network_library.Prelude.{
  ℕ, zero, suc, ◌+◌, ◌%◌, ◌^◌, ◌≤◌, ◌<◌, ◌≡◌, refl, sym, subst, ◌⊎◌, inl, inr, false, Option, none,
  some, List, [], ◌∷◌, ◌++◌, arith, length, length-append, ltb, leb, ◌==◌, if◌then◌else◌,
  le→ltb_false,
}
use ryan_network_library.MemoryPool.{
  SmallNode, Pool, Block, align_ptr, new_node, fail_nodes, malloc_small_node, malloc_small, malloc,
}
use ryan_network_library.MemoryPool.Layout.{
  Chunk, IsNode, AllApart, IsLaid, IsValid, SameFrames, length-SameFrames, AllApart-SameFrames,
  IsLaid-append,
}
use ryan_network_library.MemoryPool.Fit.{Given, Given-append, fit-IsLaid}

-- The counters of the failures say nothing on the chunks.
failed-IsNode :
    (counted : Bool) (k : ℕ) (n : SmallNode) (cs : List Chunk)
    → IsNode counted n cs
    → IsNode counted (record n { failed_ = k }) cs
failed-IsNode counted k n cs v = record {
  stacked = v.stacked;
  within = v.within;
  aligned = v.aligned;
  small = v.small;
  page = v.page;
  quote = v.quote;
}

fail_nodes-IsLaid :
    (counted : Bool) (skip here current : ℕ) (ns : List SmallNode) (css : List (List Chunk))
    → IsLaid counted ns css
    → IsLaid counted (fail_nodes skip here current ns).1 css
      × SameFrames ns (fail_nodes skip here current ns).1
      × (((fail_nodes skip here current ns).0 ≡ current)
          ⊎ ((fail_nodes skip here current ns).0 < here + length ns))
unfolding fail_nodes
fail_nodes-IsLaid counted skip here current [] [] h = (h, tt, inl refl)
fail_nodes-IsLaid counted skip here current [] (cs ∷ css) h = absurd h
fail_nodes-IsLaid counted skip here current (n ∷ ns) [] h = absurd h
fail_nodes-IsLaid counted (suc skip) here current (n ∷ ns) (cs ∷ css) (v, a, h) =
    let (k, s, c) = fail_nodes-IsLaid counted skip (here + 1) current ns css h in
    (
      (v, AllApart-SameFrames n.address n.end_ ns (fail_nodes skip (here + 1) current ns).1 s a, k),
      (refl, refl, s),
      omega (arith, c),
    )
fail_nodes-IsLaid counted zero here current (n ∷ []) (cs ∷ css) h = (h, (refl, refl, tt), inl refl)
fail_nodes-IsLaid counted zero here current (n ∷ m ∷ ns) (cs ∷ css) (v, a, h) =
    let next = if leb 5 n.failed_ then here + 1 else current in
    let (k, s, c) = fail_nodes-IsLaid counted zero (here + 1) next (m ∷ ns) css h in
    (
      (
        failed-IsNode counted ((n.failed_ + 1) % 2 ^ 32) n cs v,
        AllApart-SameFrames n.address n.end_ (m ∷ ns) (fail_nodes zero (here + 1) next (m ∷ ns)).1 s
            a,
        k,
      ),
      (refl, refl, s),
      ground (arith, c),
    )

-- What posix_memalign promises of a block. It promises nothing of what the memory holds: where the
-- counters are `counted`, it must be 0 in the one that the source adds to without setting it.
pub record IsBlock (counted : Bool) (ns : List SmallNode) (b : Block) : Type 0 where
  pub there : 0 < b.memory
  pub aligned : b.memory % 16 ≡ 0
  pub small : b.memory + 4096 < 2 ^ 63
  pub apart : AllApart b.memory (b.memory + 4096) ns
  pub clear : counted ≡ true → b.quote ≡ 0

abbrev pub IsBlockOrNull : Bool → List SmallNode → Option Block → Type 0
IsBlockOrNull counted ns none = Unit {0}
IsBlockOrNull counted ns (some b) = IsBlock counted ns b

new_node-IsNode :
    (counted : Bool) (size : ℕ) (ns : List SmallNode) (b : Block)
    → 0 < size
    → size ≤ 4064
    → IsBlock counted ns b
    → IsNode counted (new_node size b) (record { at = align_ptr (b.memory + 32); size = size } ∷ [])
      × (align_ptr (b.memory + 32) ≡ b.memory + 32)
unfolding new_node align_ptr
new_node-IsNode counted size ns b positive fits v =
    let start : align_ptr (b.memory + 32) ≡ b.memory + 32 = omega (arith, v.aligned, v.small) in
    (
      record {
        stacked = (omega (arith, start), positive, omega arith);
        within = omega (arith, start, v.small);
        aligned = omega (arith, v.aligned);
        small = v.small;
        page = omega arith;
        quote = λ e. omega (arith, v.clear e);
      },
      start,
    )

-- A null pointer, or an address and the pool that has given it out.
abbrev pub IsGiven : Bool → ℕ → Pool → List (List Chunk) → ℕ × Pool → Type 0
IsGiven counted size p css r =
    ((r.0 ≡ 0) × (r.1 ≡ p))
    ⊎ ((r.0 % 16 ≡ 0)
        × (0 < r.0)
        × (css' : List (List Chunk)) × Given (record { at = r.0; size = size }) css css'
        × IsValid counted r.1 css')

pub malloc_small-IsGiven :
    (counted : Bool) (size : ℕ) (block : Option Block) (p : Pool) (css : List (List Chunk))
    → 0 < size
    → size ≤ 4064
    → IsValid counted p css
    → IsBlockOrNull counted p.small_list block
    → IsGiven counted size p css (malloc_small size block p)
unfolding malloc_small malloc_small_node new_node
malloc_small-IsGiven counted size block p css positive fits v b =
    elim (fit-IsLaid counted size p.current_ p.small_list css positive v.laid) [
      | inr (addr, ns, css', e, w, z, g, k, s) ↦
          let given : malloc_small size block p ≡ (addr, record p { small_list = ns }) =
            rw (malloc_small, e) refl in
          subst (λ r. IsGiven counted size p css r) (sym given)
            (inr (
              w,
              z,
              css',
              g,
              record {
                laid = k;
                current = omega (arith, v.current, length-SameFrames p.small_list ns s);
              },
            ))
      | inl e ↦
          let given : malloc_small size block p ≡ malloc_small_node size block p =
            rw (malloc_small, e) refl in
          subst (λ r. IsGiven counted size p css r) (sym given) (fresh block b)
    ]
  where
    fresh :
        (o : Option Block)
        → IsBlockOrNull counted p.small_list o
        → IsGiven counted size p css (malloc_small_node size o p)
    fresh none h = inl (refl, refl)
    fresh (some b) h =
        let (laid, s, c) =
          fail_nodes-IsLaid counted p.current_ 0 p.current_ p.small_list css v.laid in
        let ns = (fail_nodes p.current_ 0 p.current_ p.small_list).1 in
        let (node, start) = new_node-IsNode counted size p.small_list b positive fits h in
        let n = length-SameFrames p.small_list ns s in
        let chunk : Chunk = record { at = align_ptr (b.memory + 32); size = size } in
        inr (
          omega (arith, h.aligned, start),
          omega (arith, start),
          css ++ ((chunk ∷ []) ∷ []),
          Given-append chunk css,
          record {
            laid =
                IsLaid-append counted ns css (new_node size b) (chunk ∷ []) laid node
                  (AllApart-SameFrames b.memory (b.memory + 4096) p.small_list ns s h.apart);
            current = omega (arith, n, c, v.current, length-append ns (new_node size b ∷ []));
          },
        )

-- Behind the guards of malloc, for a size that is not 0 and that one page can hold. The pool's chunks
-- lie inside its nodes, no two with a byte in common, and no two nodes have a byte in common;
-- posix_memalign gives no block, or an aligned one that has nothing in common with the nodes, with any
-- contents. Then malloc gives a null pointer and changes nothing, or an address that is a multiple of 16
-- and not null, and the chunk that starts there is a new one of the pool's chunks, with all of this
-- true of them again. And, where `counted` is true, so that each node counts its own chunks and a new
-- block has 0 in the counter that the source does not set, each node counts its own again.
pub malloc-IsGiven :
    (counted : Bool) (size : ℕ) (large : Option ℕ) (block : Option Block) (p : Pool)
    (css : List (List Chunk))
    → 0 < size
    → size ≤ 4064
    → IsValid counted p css
    → IsBlockOrNull counted p.small_list block
    → IsGiven counted size p css (malloc size large block p)
unfolding malloc
malloc-IsGiven counted size large block p css positive fits v b =
    let some_bytes : (size == 0) ≡ false = ground arith in
    let one_page : ltb 4064 size ≡ false = le→ltb_false 4064 size fits in
    let given : malloc size large block p ≡ malloc_small size block p =
      rw (some_bytes, one_page) refl in
    subst (λ r. IsGiven counted size p css r) (sym given)
      (malloc_small-IsGiven counted size block p css positive fits v b)
