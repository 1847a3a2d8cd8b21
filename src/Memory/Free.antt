-- ===== src/Memory/Free.antt =====
-- MmFreeNonCachedMemory: it ends without a fault at an address of the pool, keeps the invariant,
-- and gives back exactly the allocation that begins in that block.
use mathlib.Core.Path.{subst}
use native.Mathlib.Decide.{dec_lt, ℕ_discrete}
use mylysos.Base.{
  ℕ, ◌+◌, ◌-◌, ◌*◌, ◌/◌, ◌≤◌, ◌<◌, ◌≡◌, ◌≢◌, refl, sym, ap, ◌∙◌, ◌⊎◌, inl, inr, some, arith, u32,
  sub32, ok, Returns,
}
use mylysos.Memory.{
  MemBlkDesc, MemBlkManager, mem_blk_free, mem_blk_used, mem_blk_size, for_blocks, set_free,
  free_blocks_at, free_non_cached_memory, get_desc_addr_from_pool_addr, desc_index,
}
use mylysos.Memory.Table.{
  Table, AllStatus, Chunks, end, free_one, allocated, Chunks-le, Chunks-frame, Changed,
  for_blocks-Changed, count_used, count_used-le, count_used-add,
}
use mylysos.Memory.Valid.{IsValid, last_block, Chunks-at, Chunks-replace, Chunks-free_row}

-- An allocation of `n` blocks begins at `s`.
pub record Live (m : MemBlkManager) (s n : ℕ) : Type 0 where
  pub pos : 0 < n
  pub below : s + n ≤ last_block m
  pub size_eq : (m.desc s).block_size ≡ n
  pub all_used : AllStatus mem_blk_used m.desc s (s + n)
  pub rest : Chunks (last_block m) m.desc (s + n)

-- A used block with a size is the first of an allocation.
pub Live-of_size :
    {m : MemBlkManager} (s : ℕ)
    → IsValid m
    → s < m.blocks
    → (m.desc s).status ≡ mem_blk_used
    → 0 < (m.desc s).block_size
    → Live m s (m.desc s).block_size
Live-of_size {m} s v h u p = go (Chunks-at s v.chunks (omega arith) (omega arith) (inr p))
  where
    go : Chunks (last_block m) m.desc s → Live m s (m.desc s).block_size
    go (end e f) = absurd (omega arith)
    go (free_one e f c) = absurd (omega arith)
    go (allocated n q z w i c) =
        rw z (record { pos = q; below = Chunks-le c; size_eq = z; all_used = w; rest = c })

abbrev pub after_free : MemBlkManager → ℕ → Table → MemBlkManager
after_free m n d' = record m {
  desc = d';
  free_blocks = u32 (m.free_blocks + n);
  used_blocks = sub32 m.used_blocks n;
}

pub IsValid-after_free :
    {m : MemBlkManager} (n s : ℕ) (d' : Table)
    → IsValid m
    → Live m s n
    → Changed set_free s (s + n) m.desc d'
    → IsValid (after_free m n d')
IsValid-after_free {m} n s d' v l c = record {
  some_blocks = v.some_blocks;
  entry_pos = v.entry_pos;
  table_fits = v.table_fits;
  pool_fits = v.pool_fits;
  linked = record {
    next_of = λ i g. next_same i ∙ v.linked.next_of i g;
    next_of_last = next_same (last_block m) ∙ v.linked.next_of_last;
  };
  chunks =
      Chunks-replace s d' v.chunks (omega arith) (omega (arith, l.below))
        (inr (omega (arith, l.size_eq, l.pos))) (λ j lo hi. c.outside j (inl hi))
        (Chunks-free_row n s l.below freed
          (Chunks-frame d' l.rest (λ j lo hi. c.outside j (inr lo))));
  free_size = λ j q r e. elim (dec_lt j s) [
    | yes a ↦ ground (arith, c.outside j, v.free_size j)
    | no a ↦ elim (dec_lt j (s + n)) [
      | yes b ↦ ground (arith, c.inside j)
      | no b ↦ ground (arith, c.outside j, v.free_size j)
    ]
  ];
  used_eq = counted;
  sum_eq = omega (arith, added, v.used_eq, v.sum_eq, v.pool_fits, count_used-le m.desc m.blocks);
}
  where
    next_same : (j : ℕ) → (d' j).next ≡ (m.desc j).next
    next_same j = elim (dec_lt j s) [
      | yes a ↦ ground (arith, c.outside j)
      | no a ↦ elim (dec_lt j (s + n)) [
        | yes b ↦ ground (arith, c.inside j)
        | no b ↦ ground (arith, c.outside j)
      ]
    ]

    freed : AllStatus mem_blk_free d' s (s + n)
    freed j lo hi = ground (arith, c.inside j)

    added : count_used m.desc m.blocks ≡ count_used d' m.blocks + n
    added = omega (
      arith,
      l.below,
      v.some_blocks,
      count_used-add d' m.desc m.blocks s (s + n) freed l.all_used
          (λ j o. ap (λ (x : MemBlkDesc). x.status) (sym (c.outside j o))),
    )

    counted : sub32 m.used_blocks n ≡ count_used d' m.blocks
    counted = omega (arith, added, v.used_eq, v.pool_fits, count_used-le m.desc m.blocks)

-- The block that an address of the pool lies in.
abbrev pub block_of : MemBlkManager → ℕ → ℕ
block_of m base = (base - m.pool_entry) / mem_blk_size

-- What a call may do: nothing, if the block at the address is free or is not the first of an
-- allocation; or the blocks of the allocation that begins there become free, and no other changes.
pub data Freed (m : MemBlkManager) (base : ℕ) (m' : MemBlkManager) : Type 0 where
  ignored :
      ((m.desc (block_of m base)).status ≢ mem_blk_used)
        ⊎ ((m.desc (block_of m base)).block_size ≡ 0)
      → m' ≡ m
      → Freed m base m'
  released :
      (n : ℕ)
      → Live m (block_of m base) n
      → Changed set_free (block_of m base) (block_of m base + n) m.desc m'.desc
      → m' ≡ after_free m n m'.desc
      → Freed m base m'

abbrev pub InPool : MemBlkManager → ℕ → Type 0
InPool m base = (m.pool_entry ≤ base) × (base < m.pool_entry + m.blocks * mem_blk_size)

module _ (m : MemBlkManager) (base : ℕ) where
  index_found :
      IsValid m
      → InPool m base
      → desc_index m (get_desc_addr_from_pool_addr m base) ≡ some (block_of m base)
  unfolding get_desc_addr_from_pool_addr desc_index
  index_found v h = ground arith

  pub free-enter :
      IsValid m → InPool m base → free_non_cached_memory base m ≡ free_blocks_at (block_of m base) m
  unfolding free_non_cached_memory
  free-enter v h = ground (arith, index_found v h)

  pub free_at-free : (i : ℕ) → (m.desc i).status ≢ mem_blk_used → free_blocks_at i m ≡ ok tt m
  unfolding free_blocks_at
  free_at-free i h = ground arith

  free_at-inner : (i : ℕ) → IsValid m → (m.desc i).block_size ≡ 0 → free_blocks_at i m ≡ ok tt m
  unfolding free_blocks_at
  free_at-inner i v h = ground (arith, none_changed)
    where
      none_changed : for_blocks set_free (m.desc i).block_size (some i) m.desc ≡ some m.desc
      none_changed = rw h (unfold for_blocks in refl)

  free_at-Live :
      (i n : ℕ)
      → IsValid m
      → Live m i n
      → (d' : Table) × (free_blocks_at i m ≡ ok tt (after_free m n d'))
        × Changed set_free i (i + n) m.desc d'
  unfolding free_blocks_at
  free_at-Live i n v l =
      let (d', run, c) =
        for_blocks-Changed set_free n i m.desc
          (λ j lo hi. v.linked.next_of j (omega (arith, l.below))) in
      let changed : for_blocks set_free (m.desc i).block_size (some i) m.desc ≡ some d' =
        rw l.size_eq run in
      (d', ground (arith, l.all_used i, changed), c)

  -- From a valid manager and an address of the pool MmFreeNonCachedMemory returns, and leaves a
  -- valid manager; it changes nothing unless an allocation begins in the block of the address,
  -- and then frees exactly the blocks of that allocation.
  pub free-Freed :
      IsValid m
      → InPool m base
      → Returns (λ _ m'. IsValid m' × Freed m base m') (free_non_cached_memory base m)
  free-Freed v h =
      let i = block_of m base in
      subst (Returns (λ _ m'. IsValid m' × Freed m base m')) (sym (free-enter v h))
        (elim (ℕ_discrete (m.desc i).status mem_blk_used) [
          | no f ↦
              subst (Returns (λ _ m'. IsValid m' × Freed m base m')) (sym (free_at-free i f))
                (v, ignored (inl f) refl)
          | yes u ↦ elim (ℕ_discrete (m.desc i).block_size 0) [
            | yes z ↦
                subst (Returns (λ _ m'. IsValid m' × Freed m base m')) (sym (free_at-inner i v z))
                  (v, ignored (inr z) refl)
            | no p ↦
                let l = Live-of_size i v (omega arith) u (omega arith) in
                let (d', run, c) = free_at-Live i _ v l in
                subst (Returns (λ _ m'. IsValid m' × Freed m base m')) (sym run)
                  (IsValid-after_free _ i d' v l c, released _ l c refl)
          ]
        ])
