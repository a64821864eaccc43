-- ===== src/MemoryPool/Layout.antt =====
-- Where the nodes of the pool and the chunks that it gave out lie in memory.
use ryan_network_library.Prelude.{
  ℕ, suc, ◌+◌, ◌%◌, ◌^◌, ◌≤◌, ◌<◌, ◌≡◌, refl, Bool, true, ap, ◌⊎◌, inl, inr, List, [], ◌∷◌, ◌++◌,
  arith, length,
}
use ryan_network_library.MemoryPool.{SmallNode, Pool, align_ptr}

-- Bytes that were given out and not given back.
pub record Chunk : Type 0 where
  pub at : ℕ
  pub size : ℕ

-- The chunks lie between two addresses, none empty, each below the one before it in the list.
abbrev pub IsStacked : ℕ → ℕ → List Chunk → Type 0
IsStacked base top [] = base ≤ top
IsStacked base top (c ∷ cs) = (c.at + c.size ≤ top) × (0 < c.size) × IsStacked base c.at cs

-- The chunks of a node lie between the node and `last_`, and where the counters are `counted`, `quote_` is
-- their number.
pub record IsNode (counted : Bool) (n : SmallNode) (cs : List Chunk) : Type 0 where
  pub stacked : IsStacked (n.address + 32) n.last_ cs
  pub within : n.last_ ≤ n.end_
  pub aligned : n.end_ % 16 ≡ 0
  pub small : n.end_ < 2 ^ 63
  pub page : n.end_ ≤ n.address + 4096
  pub quote : counted ≡ true → n.quote_ ≡ length cs

-- The node's memory and these bytes have nothing in common.
abbrev pub IsApart : ℕ → ℕ → SmallNode → Type 0
IsApart from to m = (to ≤ m.address) ⊎ (m.end_ ≤ from)

abbrev pub AllApart : ℕ → ℕ → List SmallNode → Type 0
AllApart from to [] = Unit {0}
AllApart from to (n ∷ ns) = IsApart from to n × AllApart from to ns

-- Every node with its chunks, and no two nodes with a byte in common.
abbrev pub IsLaid : Bool → List SmallNode → List (List Chunk) → Type 0
IsLaid counted [] [] = Unit {0}
IsLaid counted [] (cs ∷ css) = ⊥
IsLaid counted (n ∷ ns) [] = ⊥
IsLaid counted (n ∷ ns) (cs ∷ css) =
    IsNode counted n cs × AllApart n.address n.end_ ns × IsLaid counted ns css

pub record IsValid (counted : Bool) (p : Pool) (css : List (List Chunk)) : Type 0 where
  pub laid : IsLaid counted p.small_list css
  pub current : p.current_ < length p.small_list

pub IsStacked-bounds :
    (base top : ℕ) (cs : List Chunk) → IsStacked base top cs → base + length cs ≤ top
IsStacked-bounds base top [] h = omega (arith, h)
IsStacked-bounds base top (c ∷ cs) (h, k, l) = omega (arith, IsStacked-bounds base c.at cs l)

pub IsStacked-top :
    (base top top' : ℕ) (cs : List Chunk)
    → top ≤ top'
    → IsStacked base top cs
    → IsStacked base top' cs
IsStacked-top base top top' [] le h = omega (arith, h)
IsStacked-top base top top' (c ∷ cs) le (h, k, l) = (omega arith, k, l)

-- The counter of a node does not wrap.
pub IsNode-small :
    (counted : Bool) (n : SmallNode) (cs : List Chunk) → IsNode counted n cs → length cs < 4096
IsNode-small counted n cs v =
    omega (arith, IsStacked-bounds (n.address + 32) n.last_ cs v.stacked, v.within, v.page)

pub align_ptr-bounds :
    (p : ℕ) → p < 2 ^ 63 → (p ≤ align_ptr p) × (align_ptr p < p + 16) × (align_ptr p % 16 ≡ 0)
unfolding align_ptr
align_ptr-bounds p small = (omega arith, omega arith, omega arith)

pub align_ptr-end : (p e : ℕ) → p < 2 ^ 63 → p ≤ e → e % 16 ≡ 0 → align_ptr p ≤ e
unfolding align_ptr
align_ptr-end p e small le whole = omega arith

-- The same nodes, wherever their counters and `last_` are.
abbrev pub SameFrames : List SmallNode → List SmallNode → Type 0
SameFrames [] [] = Unit {0}
SameFrames [] (m ∷ ms) = ⊥
SameFrames (n ∷ ns) [] = ⊥
SameFrames (n ∷ ns) (m ∷ ms) = (m.address ≡ n.address) × (m.end_ ≡ n.end_) × SameFrames ns ms

pub SameFrames-refl : (ns : List SmallNode) → SameFrames ns ns
SameFrames-refl [] = tt
SameFrames-refl (n ∷ ns) = (refl, refl, SameFrames-refl ns)

pub length-SameFrames : (ns ms : List SmallNode) → SameFrames ns ms → length ms ≡ length ns
length-SameFrames [] [] h = refl
length-SameFrames [] (m ∷ ms) h = absurd h
length-SameFrames (n ∷ ns) [] h = absurd h
length-SameFrames (n ∷ ns) (m ∷ ms) (_, _, h) = ap (λ k. suc k) (length-SameFrames ns ms h)

pub AllApart-SameFrames :
    (from to : ℕ) (ns ms : List SmallNode)
    → SameFrames ns ms
    → AllApart from to ns
    → AllApart from to ms
AllApart-SameFrames from to [] [] s h = tt
AllApart-SameFrames from to [] (m ∷ ms) s h = absurd s
AllApart-SameFrames from to (n ∷ ns) [] s h = absurd s
AllApart-SameFrames from to (n ∷ ns) (m ∷ ms) (a, e, s) (h, k) =
    (rw (a, e) h, AllApart-SameFrames from to ns ms s k)

AllApart-append :
    (from to : ℕ) (ns : List SmallNode) (m : SmallNode)
    → AllApart from to ns
    → IsApart from to m
    → AllApart from to (ns ++ (m ∷ []))
AllApart-append from to [] m h k = (k, tt)
AllApart-append from to (n ∷ ns) m (h, l) k = (h, AllApart-append from to ns m l k)

pub IsLaid-append :
    (counted : Bool) (ns : List SmallNode) (css : List (List Chunk)) (m : SmallNode)
    (cs : List Chunk)
    → IsLaid counted ns css
    → IsNode counted m cs
    → AllApart m.address m.end_ ns
    → IsLaid counted (ns ++ (m ∷ [])) (css ++ (cs ∷ []))
IsLaid-append counted [] [] m cs h v a = (v, tt, tt)
IsLaid-append counted [] (ds ∷ css) m cs h v a = absurd h
IsLaid-append counted (n ∷ ns) [] m cs h v a = absurd h
IsLaid-append counted (n ∷ ns) (ds ∷ css) m cs (w, b, h) v (x, a) =
    (w, AllApart-append n.address n.end_ ns m b (flip x), IsLaid-append counted ns css m cs h v a)
  where
    flip : IsApart m.address m.end_ n → IsApart n.address n.end_ m
    flip (inl e) = inr e
    flip (inr e) = inl e
