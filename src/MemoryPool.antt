-- ===== src/MemoryPool.antt =====
-- memory_pool/memory_pool.h and memory_pool.cc: the pool of small and large blocks. An address is a
-- number and 0 the null pointer. What posix_memalign gives is an argument, with what the memory of a
-- new block has in the fields that the source does not set. The sizes of the structs are those of a
-- 64-bit machine. What the pool gives to `free` is kept track of by DestroyPool only.
pub mod Layout
pub mod Fit
pub mod Small
pub mod Free
pub mod Large
mod Tests
use ryan_network_library.Prelude.{
  ℕ, zero, suc, ◌+◌, ◌-◌, ◌*◌, ◌/◌, ◌%◌, ◌^◌, Bool, true, false, not, ◌&&◌, Option, none, some,
  List, [], ◌∷◌, ◌++◌, map, length, ltb, leb, ◌==◌, if◌then◌else◌, sub64, ◌>>=◌, ◌>>◌, check,
}

abbrev pub page_size : ℕ
page_size = 4096

abbrev pub alignment : ℕ
alignment = 16

abbrev pub size_of_pool : ℕ
size_of_pool = 24

abbrev pub size_of_small_node : ℕ
size_of_small_node = 32

abbrev pub size_of_large_node : ℕ
size_of_large_node = 24

-- `mp_align_ptr`: the mask of a power of two clears the bits below it.
unfoldable pub align_ptr : ℕ → ℕ
align_ptr p = (p + (alignment - 1)) % 2 ^ 64 / alignment * alignment

-- `address` is where the node itself stands; `next_` is the order of the list.
pub record SmallNode : Type 0 where
  pub address : ℕ
  pub end_ : ℕ
  pub last_ : ℕ
  pub quote_ : ℕ
  pub failed_ : ℕ

pub record LargeNode : Type 0 where
  pub address_ : ℕ
  pub size_ : ℕ

-- `head_` is the first of `small_list`; `current_` counts from it.
pub record Pool : Type 0 where
  pub pool_ : ℕ
  pub large_list_ : List LargeNode
  pub small_list : List SmallNode
  pub current_ : ℕ

-- A block of posix_memalign, with what its memory has for the counters and the next node.
pub record Block : Type 0 where
  pub memory : ℕ
  pub quote : ℕ
  pub failed : ℕ
  pub next : ℕ

-- `CreatePool`. `none` when there is no memory, or the next node, which is not set, is not null.
unfoldable pub create_pool : Option Block → Option Pool
create_pool block = do
  b ← block
  check (b.next == 0)
  some (record {
    pool_ = b.memory;
    large_list_ = [];
    small_list =
        record {
          address = b.memory + size_of_pool;
          end_ = b.memory + page_size;
          last_ = b.memory + size_of_pool + size_of_small_node;
          quote_ = b.quote;
          failed_ = 0;
        }
        ∷ [];
    current_ = 0;
  })

-- The node of a new block, which has `size` bytes given out.
unfoldable pub new_node : ℕ → Block → SmallNode
unfolding align_ptr
new_node size b = record {
  address = b.memory;
  end_ = b.memory + page_size;
  last_ = align_ptr (b.memory + size_of_small_node) + size;
  quote_ = (b.quote + 1) % 2 ^ 32;
  failed_ = b.failed;
}

-- The loop of `MallocSmallNode` from the node that is `skip` further: the current node and the list. The
-- first node of the list is number `here`.
unfoldable pub fail_nodes : ℕ → ℕ → ℕ → List SmallNode → ℕ × List SmallNode
fail_nodes skip here current [] = (current, [])
fail_nodes (suc skip) here current (n ∷ ns) =
    let (c, ns') = fail_nodes skip (here + 1) current ns in (c, n ∷ ns')
fail_nodes zero here current (n ∷ []) = (current, n ∷ [])
fail_nodes zero here current (n ∷ m ∷ ns) =
    let (c, ns') =
      fail_nodes zero (here + 1) (if leb 5 n.failed_ then here + 1 else current) (m ∷ ns) in
    (c, record n { failed_ = (n.failed_ + 1) % 2 ^ 32 } ∷ ns')

unfoldable pub malloc_small_node : ℕ → Option Block → Pool → ℕ × Pool
unfolding new_node fail_nodes align_ptr
malloc_small_node size none p = (0, p)
malloc_small_node size (some b) p =
    let (c, ns) = fail_nodes p.current_ 0 p.current_ p.small_list in
    (
      align_ptr (b.memory + size_of_small_node),
      record p { small_list = ns ++ (new_node size b ∷ []); current_ = c },
    )

-- The loop of `malloc` from the node that is `skip` further: the address and the list.
unfoldable pub fit : ℕ → ℕ → List SmallNode → Option (ℕ × List SmallNode)
unfolding align_ptr
fit size skip [] = none
fit size (suc skip) (n ∷ ns) = do (addr, ns') ← fit size skip ns; some (addr, n ∷ ns')
fit size zero (n ∷ ns) =
    let later = (do (addr, ns') ← fit size zero ns; some (addr, n ∷ ns')) in
    if leb size (sub64 n.end_ (align_ptr n.last_))
    then some (
      align_ptr n.last_,
      record n { quote_ = (n.quote_ + 1) % 2 ^ 32; last_ = align_ptr n.last_ + size } ∷ ns,
    )
    else later

-- `malloc` behind its two guards.
unfoldable pub malloc_small : ℕ → Option Block → Pool → ℕ × Pool
unfolding fit malloc_small_node
malloc_small size block p = elim (fit size p.current_ p.small_list) [
  | some (addr, ns) ↦ (addr, record p { small_list = ns })
  | none ↦ malloc_small_node size block p
]

-- The loop of `MallocLargeNode`: the first of five nodes that has no block gets this one.
unfoldable pub reuse : ℕ → ℕ → ℕ → List LargeNode → Option (List LargeNode)
reuse count size addr [] = none
reuse count size addr (n ∷ ns) =
    let later = (do ns' ← reuse (count + 1) size addr ns; some (n ∷ ns')) in
    if n.address_ == 0
    then some (record { address_ = addr; size_ = size % 2 ^ 32 } ∷ ns)
    else if ltb 3 count
    then none
    else later

-- The new node of `MallocLargeNode`, which `malloc` gives; a null pointer gives the block back.
unfoldable pub link_large : ℕ → ℕ → ℕ × Pool → ℕ × Pool
link_large size addr (node, p) = if node == 0 then (0, p) else (
  addr,
  record p { large_list_ = record { address_ = addr; size_ = size % 2 ^ 32 } ∷ p.large_list_ },
)

unfoldable pub malloc_large_node : ℕ → Option ℕ → Option Block → Pool → ℕ × Pool
unfolding reuse malloc_small link_large
malloc_large_node size none block p = (0, p)
malloc_large_node size (some addr) block p = elim (reuse 0 size addr p.large_list_) [
  | some ns ↦ (addr, record p { large_list_ = ns })
  | none ↦ link_large size addr (malloc_small size_of_large_node block p)
]

-- `malloc`: `large` is the large block, if one is asked for, and `block` the small one.
unfoldable pub malloc : ℕ → Option ℕ → Option Block → Pool → ℕ × Pool
unfolding malloc_large_node malloc_small
malloc size large block p =
    if size == 0
    then (0, p)
    else if ltb (page_size - size_of_small_node) size
    then malloc_large_node size large block p
    else malloc_small size block p

-- `Calloc`, with the bytes of the memory by their addresses.
unfoldable pub calloc : ℕ → Option ℕ → Option Block → (ℕ → ℕ) → Pool → ℕ × (ℕ → ℕ) × Pool
unfolding malloc
calloc size large block bytes p =
    let (addr, p') = malloc size large block p in
    (addr, (λ i. if not (addr == 0) && (leb addr i && ltb i (addr + size)) then 0 else bytes i), p')

-- The first loop of `FreeMemory`.
unfoldable pub free_large : ℕ → List LargeNode → Option (List LargeNode)
free_large ptr [] = none
free_large ptr (n ∷ ns) =
    let later = (do ns' ← free_large ptr ns; some (n ∷ ns')) in
    if n.address_ == ptr then some (record { address_ = 0; size_ = 0 } ∷ ns) else later

-- A block that is no longer referred to is empty. For the head, its node's end is `pool_` and the
-- sizes of both structs.
unfoldable pub empty_node : SmallNode → SmallNode
empty_node n = record n { last_ = n.address + size_of_small_node; failed_ = 0; quote_ = 0 }

-- The second loop: whether the block is empty then, and the list.
unfoldable pub free_small : ℕ → List SmallNode → Option (Bool × List SmallNode)
unfolding empty_node
free_small ptr [] = none
free_small ptr (n ∷ ns) =
    let later = (do (emptied, ns') ← free_small ptr ns; some (emptied, n ∷ ns')) in
    let quote = (n.quote_ + (2 ^ 32 - 1)) % 2 ^ 32 in
    if leb n.address ptr && leb ptr n.end_
    then (if quote == 0
        then some (true, empty_node n ∷ ns)
        else some (false, record n { quote_ = quote } ∷ ns))
    else later

unfoldable pub free_memory : ℕ → Pool → Pool
unfolding free_large free_small
free_memory ptr p = elim (free_large ptr p.large_list_) [
  | some ns ↦ record p { large_list_ = ns }
  | none ↦ elim (free_small ptr p.small_list) [
    | some (emptied, ns) ↦ record p {
      small_list = ns;
      current_ = if emptied then 0 else p.current_;
    }
    | none ↦ p
  ]
]

unfoldable pub reset_pool : Pool → Pool
unfolding empty_node
reset_pool p = record p { large_list_ = []; current_ = 0; small_list = map empty_node p.small_list }

-- The large blocks that are not null.
abbrev pub large_blocks : List LargeNode → List ℕ
large_blocks [] = []
large_blocks (n ∷ ns) = if n.address_ == 0 then large_blocks ns else n.address_ ∷ large_blocks ns

-- `DestroyPool`: what is given to `free`. `none` when there is a block behind the head: its next node is
-- read after it was given back.
unfoldable pub destroy_pool : Pool → Option (List ℕ)
destroy_pool p = do
  check (leb (length p.small_list) 1)
  some (large_blocks p.large_list_ ++ (p.pool_ ∷ []))
