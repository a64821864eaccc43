-- ===== src/MemoryPool/Fit.antt =====
-- The loop of malloc over the nodes: a chunk goes into the first node that has room.
use ryan_network_library.Prelude.{Bool}
use ryan_network_library.Prelude.{
  ℕ, zero, suc, ◌+◌, ◌%◌, ◌^◌, ◌<◌, ◌≡◌, refl, ◌⊎◌, inl, inr, true, none, some, List, [], ◌∷◌, ◌++◌,
  arith, leb, leb→le, Bool-cases, sub64,
}
use ryan_network_library.MemoryPool.{SmallNode, align_ptr, fit}
use ryan_network_library.MemoryPool.Layout.{
  Chunk, IsNode, IsLaid, IsStacked-bounds, IsStacked-top, IsNode-small, align_ptr-bounds,
  align_ptr-end, SameFrames, SameFrames-refl, AllApart-SameFrames,
}

-- The chunk is the last one of one of the nodes, or the only one of a new node.
abbrev pub Given : Chunk → List (List Chunk) → List (List Chunk) → Type 0
Given c [] css' = css' ≡ (c ∷ []) ∷ []
Given c (cs ∷ css) css' =
    (css' ≡ (c ∷ cs) ∷ css) ⊎ ((rest : List (List Chunk)) × (css' ≡ cs ∷ rest) × Given c css rest)

pub Given-append : (c : Chunk) (css : List (List Chunk)) → Given c css (css ++ ((c ∷ []) ∷ []))
Given-append c [] = refl
Given-append c (cs ∷ css) = inr (css ++ ((c ∷ []) ∷ []), refl, Given-append c css)

-- The node that has room.
grown-IsNode :
    (counted : Bool) (size : ℕ) (n : SmallNode) (cs : List Chunk)
    → 0 < size
    → IsNode counted n cs
    → leb size (sub64 n.end_ (align_ptr n.last_)) ≡ true
    → IsNode counted
        (record n { quote_ = (n.quote_ + 1) % 2 ^ 32; last_ = align_ptr n.last_ + size })
        (record { at = align_ptr n.last_; size = size } ∷ cs)
grown-IsNode counted size n cs positive v room =
    let (above, below, whole) = align_ptr-bounds n.last_ (omega (arith, v.within, v.small)) in
    let inside =
      align_ptr-end n.last_ n.end_ (omega (arith, v.within, v.small)) v.within v.aligned in
    let enough = leb→le size (sub64 n.end_ (align_ptr n.last_)) room in
    let few = IsNode-small counted n cs v in
    record {
      stacked = (
        omega arith,
        positive,
        IsStacked-top (n.address + 32) n.last_ (align_ptr n.last_) cs above v.stacked,
      );
      within = omega (arith, v.small);
      aligned = v.aligned;
      small = v.small;
      page = v.page;
      quote = λ e. omega (arith, v.quote e);
    }

pub fit-IsLaid :
    (counted : Bool) (size skip : ℕ) (ns : List SmallNode) (css : List (List Chunk))
    → 0 < size
    → IsLaid counted ns css
    → (fit size skip ns ≡ none)
      ⊎ ((addr : ℕ) × (ns' : List SmallNode) × (css' : List (List Chunk)) × (fit size skip ns
            ≡ some (addr, ns'))
          × (addr % 16 ≡ 0)
          × (0 < addr)
          × Given (record { at = addr; size = size }) css css'
          × IsLaid counted ns' css'
          × SameFrames ns ns')
unfolding fit
fit-IsLaid counted size skip [] css positive h = inl refl
fit-IsLaid counted size skip (n ∷ ns) [] positive h = absurd h
fit-IsLaid counted size (suc skip) (n ∷ ns) (cs ∷ css) positive (v, a, h) =
    elim (fit-IsLaid counted size skip ns css positive h) [
      | inl e ↦ inl (rw e refl)
      | inr (addr, ns', css', e, w, z, g, k, s) ↦ inr (
        addr,
        n ∷ ns',
        cs ∷ css',
        rw e refl,
        w,
        z,
        inr (css', refl, g),
        (v, AllApart-SameFrames n.address n.end_ ns ns' s a, k),
        (refl, refl, s),
      )
    ]
fit-IsLaid counted size zero (n ∷ ns) (cs ∷ css) positive (v, a, h) =
    elim (Bool-cases (leb size (sub64 n.end_ (align_ptr n.last_)))) [
      | inl room ↦
          let (above, below, whole) = align_ptr-bounds n.last_ (omega (arith, v.within, v.small)) in
          let high = IsStacked-bounds (n.address + 32) n.last_ cs v.stacked in
          inr (
            align_ptr n.last_,
            record n { quote_ = (n.quote_ + 1) % 2 ^ 32; last_ = align_ptr n.last_ + size } ∷ ns,
            (record { at = align_ptr n.last_; size = size } ∷ cs) ∷ css,
            rw room refl,
            whole,
            omega arith,
            inl refl,
            (grown-IsNode counted size n cs positive v room, a, h),
            (refl, refl, SameFrames-refl ns),
          )
      | inr full ↦ elim (fit-IsLaid counted size zero ns css positive h) [
        | inl e ↦ inl (rw (full, e) refl)
        | inr (addr, ns', css', e, w, z, g, k, s) ↦ inr (
          addr,
          n ∷ ns',
          cs ∷ css',
          rw (full, e) refl,
          w,
          z,
          inr (css', refl, g),
          (v, AllApart-SameFrames n.address n.end_ ns ns' s a, k),
          (refl, refl, s),
        )
      ]
    ]
