-- ===== src/MemoryPool/Large.antt =====
-- Large blocks: the pool keeps each where `FreeMemory` finds it.
use ryan_network_library.Prelude.{
  ℕ, ◌+◌, ◌%◌, ◌^◌, ◌<◌, ◌≡◌, refl, sym, ap, subst, ◌⊎◌, inl, inr, true, false, Option, none, some,
  List, [], ◌∷◌, arith, ltb, ◌==◌, lt→ltb, Bool-cases,
}
use ryan_network_library.MemoryPool.{
  LargeNode, Pool, Block, reuse, link_large, malloc_small, malloc_large_node, malloc, free_large,
  create_pool,
}
use ryan_network_library.MemoryPool.Layout.{Chunk, IsValid}
use ryan_network_library.MemoryPool.Small.{IsGiven, IsBlock, IsBlockOrNull, malloc_small-IsGiven}

-- The list has a node with this block.
abbrev pub IsKept : ℕ → List LargeNode → Type 0
IsKept addr ns = (rest : List LargeNode) × (free_large addr ns ≡ some rest)

reuse-IsKept :
    (count size addr : ℕ) (ns : List LargeNode)
    → (reuse count size addr ns ≡ none)
      ⊎ ((ns' : List LargeNode) × (reuse count size addr ns ≡ some ns') × IsKept addr ns')
unfolding reuse free_large
reuse-IsKept count size addr [] = inl refl
reuse-IsKept count size addr (n ∷ ns) = elim (Bool-cases (n.address_ == 0)) [
  | inl free ↦
      let same : (addr == addr) ≡ true = ground arith in
      inr (
        record { address_ = addr; size_ = size % 2 ^ 32 } ∷ ns,
        rw free refl,
        (record { address_ = 0; size_ = 0 } ∷ ns, rw same refl),
      )
  | inr used ↦ elim (Bool-cases (ltb 3 count)) [
    | inl enough ↦ inl (rw (used, enough) refl)
    | inr few ↦ elim (reuse-IsKept (count + 1) size addr ns) [
      | inl e ↦ inl (rw (used, few, e) refl)
      | inr (ns', e, (rest, f)) ↦ inr (
        n ∷ ns',
        rw (used, few, e) refl,
        elim (Bool-cases (n.address_ == addr)) [
          | inl same ↦ (record { address_ = 0; size_ = 0 } ∷ ns', rw same refl)
          | inr other ↦ (n ∷ rest, rw (other, f) refl)
        ],
      )
    ]
  ]
]

-- The address of the block, which the pool keeps, or a null pointer and the list as it was.
abbrev pub IsKeptOrNull : ℕ → Pool → ℕ × Pool → Type 0
IsKeptOrNull addr p r =
    (css : List (List Chunk)) × IsValid true r.1 css
    × (((r.0 ≡ addr) × IsKept addr r.1.large_list_)
        ⊎ ((r.0 ≡ 0) × (r.1.large_list_ ≡ p.large_list_)))

link_large-IsKept :
    (size addr : ℕ) (p : Pool) (css : List (List Chunk)) (r : ℕ × Pool)
    → IsValid true p css
    → IsGiven true 24 p css r
    → IsKeptOrNull addr p (link_large size addr r)
unfolding link_large free_large
link_large-IsKept size addr p css (node, q) v (inl (zero_at, same)) =
    let null : (node == 0) ≡ true = ground arith in
    rw null
      (css, subst (λ x. IsValid true x css) (sym same) v, inr (refl, ap (λ x. x.large_list_) same))
link_large-IsKept size addr p css (node, q) v (inr (whole, positive, css', g, w)) =
    let there : (node == 0) ≡ false = ground arith in
    let same : (addr == addr) ≡ true = ground arith in
    rw there (
      css',
      record { laid = w.laid; current = w.current },
      inl (refl, (record { address_ = 0; size_ = 0 } ∷ q.large_list_, rw same refl)),
    )

-- Behind the guards of malloc, for a size that no page can hold, from a pool whose chunks lie as `malloc`
-- leaves them: malloc gives a null pointer, the list of the large blocks as it was, or the block of
-- posix_memalign, which the list then has where `FreeMemory` finds it. In each case the chunks of the
-- small blocks, one of which may be the new node of the list, lie as they should.
pub malloc-IsKept :
    (size addr : ℕ) (block : Option Block) (p : Pool) (css : List (List Chunk))
    → 4064 < size
    → IsValid true p css
    → IsBlockOrNull true p.small_list block
    → IsKeptOrNull addr p (malloc size (some addr) block p)
unfolding malloc malloc_large_node
malloc-IsKept size addr block p css huge v b =
    let some_bytes : (size == 0) ≡ false = ground arith in
    let no_page : ltb 4064 size ≡ true = lt→ltb 4064 size huge in
    elim (reuse-IsKept 0 size addr p.large_list_) [
      | inr (ns, e, k) ↦
          let given : malloc size (some addr) block p ≡ (addr, record p { large_list_ = ns }) =
            rw (malloc, some_bytes, no_page, malloc_large_node, e) refl in
          subst (λ r. IsKeptOrNull addr p r) (sym given)
            (css, record { laid = v.laid; current = v.current }, inl (refl, k))
      | inl e ↦
          let given : malloc size (some addr) block p
              ≡ link_large size addr (malloc_small 24 block p) =
            rw (malloc, some_bytes, no_page, malloc_large_node, e) refl in
          subst (λ r. IsKeptOrNull addr p r) (sym given)
            (link_large-IsKept size addr p css (malloc_small 24 block p) v
              (malloc_small-IsGiven true 24 block p css (omega arith) (omega arith) v b))
    ]

-- A new pool has no chunks.
pub create_pool-IsValid :
    (b : Block)
    → IsBlock true [] b
    → b.next ≡ 0
    → (p : Pool) × (create_pool (some b) ≡ some p) × IsValid true p ([] ∷ [])
unfolding create_pool
create_pool-IsValid b v null =
    let last : (b.next == 0) ≡ true = ground arith in
    (
      record {
        pool_ = b.memory;
        large_list_ = [];
        small_list =
            record {
              address = b.memory + 24;
              end_ = b.memory + 4096;
              last_ = b.memory + 24 + 32;
              quote_ = b.quote;
              failed_ = 0;
            }
            ∷ [];
        current_ = 0;
      },
      rw last refl,
      record {
        laid = (
          record {
            stacked = omega arith;
            within = omega arith;
            aligned = omega (arith, v.aligned);
            small = v.small;
            page = omega arith;
            quote = v.clear;
          },
          tt,
          tt,
        );
        current = omega arith;
      },
    )
