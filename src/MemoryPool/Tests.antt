-- ===== src/MemoryPool/Tests.antt =====
-- Runs of the pool.
use ryan_network_library.Prelude.{
  ◌≡◌, refl, Bool, true, false, inr, none, some, List, [], ◌∷◌, arith,
}
use ryan_network_library.MemoryPool.{SmallNode, Pool, Block, malloc, free_memory, free_large}
use ryan_network_library.MemoryPool.Layout.{Chunk, IsValid}
use ryan_network_library.MemoryPool.Small.{IsGiven, malloc-IsGiven, IsBlock}
use ryan_network_library.MemoryPool.Free.{given_back, free_memory-IsValid}

-- A page at 8192 that has given out 100 bytes and then 8.
abbrev node : SmallNode
node = record { address = 8216; end_ = 12288; last_ = 8360; quote_ = 2; failed_ = 0 }

abbrev pool : Pool
pool = record { pool_ = 8192; large_list_ = []; small_list = node ∷ []; current_ = 0 }

abbrev chunks : List (List Chunk)
chunks = (record { at = 8352; size = 8 } ∷ record { at = 8248; size = 100 } ∷ []) ∷ []

pool-IsValid : (counted : Bool) → IsValid counted pool chunks
pool-IsValid counted = record {
  laid = (
    record {
      stacked = (omega arith, omega arith, (omega arith, omega arith, omega arith));
      within = omega arith;
      aligned = refl;
      small = omega arith;
      page = omega arith;
      quote = λ e. refl;
    },
    tt,
    tt,
  );
  current = omega arith;
}

-- A block with something in its memory.
abbrev block : Block
block = record { memory = 65536; quote = 5; failed = 7; next = 0 }

block-IsBlock : IsBlock false (node ∷ []) block
block-IsBlock = record {
  there = omega arith;
  aligned = refl;
  small = omega arith;
  apart = (inr (omega arith), tt);
  clear = λ e. absurd (ground arith);
}

-- The page has no room for these bytes.
malloc-IsGiven_example : IsGiven false 4000 pool chunks (malloc 4000 none (some block) pool)
malloc-IsGiven_example =
    malloc-IsGiven false 4000 none (some block) pool chunks (omega arith) (omega arith)
      (pool-IsValid false) block-IsBlock

free_memory-IsValid_example : IsValid true (free_memory 8248 pool) (given_back 8248 chunks)
unfolding free_large
free_memory-IsValid_example = free_memory-IsValid 8248 pool chunks (pool-IsValid true) refl refl

-- Both chunks given back empty the page.
emptied : List SmallNode
unfolding free_memory
emptied = (free_memory 8352 (free_memory 8248 pool)).small_list

emptied_node :
    emptied ≡ record { address = 8216; end_ = 12288; last_ = 8248; quote_ = 0; failed_ = 0 } ∷ []
unfolding emptied
emptied_node = refl
