-- ===== src/Memory/Alloc.antt =====
-- MmAllocateNonCachedMemory: it ends without a fault, keeps the invariant, and returns the first
-- place where the request fits.
use mathlib.Core.Path.{subst}
use native.Mathlib.Decide.{dec_lt, ℕ_discrete}
use mylysos.Base.{
  ℕ, ◌+◌, ◌*◌, ◌≤◌, ◌<◌, ◌≡◌, ◌≢◌, refl, sym, ap, ◌∙◌, ◌⊎◌, inl, inr, arith, update, update_self,
  update_ne, u32, sub32, ok, Returns,
}
use mylysos.Memory.{
  MemBlkDesc, MemBlkManager, mem_blk_used, mem_blk_size, set_used, take_blocks, finish_allocation,
  search_blocks, SearchResult, found, not_found, out_of_fuel, allocate_non_cached_memory,
  get_required_blocks_from_bytes, get_pool_addr_from_desc_addr,
}
use mylysos.Memory.Table.{
  Table, AllStatus, Chunks, allocated, Chunks-skip, Chunks-frame, Linked, Changed,
  for_blocks-Changed, count_used, count_used-le, count_used-AllStatus, count_used-add,
}
use mylysos.Memory.Search.{Fits, FirstFit, search_blocks-FirstFit}
use mylysos.Memory.Valid.{IsValid, last_block, Chunks-replace}

-- `d'` is `d` with an allocation of `n` blocks at `s`.
pub record Takes (n s : ℕ) (d d' : Table) : Type 0 where
  pub used : AllStatus mem_blk_used d' s (s + n)
  pub size_at : (d' s).block_size ≡ n
  pub size_in : (j : ℕ) → s < j → j < s + n → (d' j).block_size ≡ (d j).block_size
  pub next_same : (j : ℕ) → (d' j).next ≡ (d j).next
  pub outside : (j : ℕ) → (j < s) ⊎ (s + n ≤ j) → d' j ≡ d j

-- The manager after an allocation that leaves the table `d'`.
abbrev pub after_take : MemBlkManager → ℕ → Table → MemBlkManager
after_take m n d' = record m {
  desc = d';
  free_blocks = sub32 m.free_blocks n;
  used_blocks = u32 (m.used_blocks + n);
}

Changed-Takes :
    (n s : ℕ) (d d' : Table)
    → 0 < n
    → Changed set_used s (s + n) d d'
    → Takes n s d (update d' s (record (d' s) { block_size = n }))
Changed-Takes n s d d' p c =
    let new = record (d' s) { block_size = n } in
    record {
      used = λ j lo hi. ground (arith, c.inside j, update_self d' s new, update_ne d' s new j);
      size_at = ground (arith, update_self d' s new);
      size_in = λ j lo hi. ground (arith, c.inside j, update_ne d' s new j);
      next_same =
          λ j. ground (arith, c.inside j, c.outside j, update_self d' s new, update_ne d' s new j);
      outside = λ j o. ground (arith, c.outside j, update_ne d' s new j);
    }

pub take_blocks-Takes :
    (m : MemBlkManager) (n s : ℕ)
    → 0 < n
    → s + n ≤ last_block m
    → Linked (last_block m) m.desc
    → (d' : Table) × (take_blocks n s m ≡ ok (m.pool_entry + s * mem_blk_size) (after_take m n d'))
      × Takes n s m.desc d'
unfolding take_blocks get_pool_addr_from_desc_addr
take_blocks-Takes m n s p h l =
    let (d', run, c) =
      for_blocks-Changed set_used n s m.desc (λ j lo hi. l.next_of j (omega arith)) in
    (
      update d' s (record (d' s) { block_size = n }),
      ground (arith, run),
      Changed-Takes n s m.desc d' p c,
    )

pub IsValid-after_take :
    {m : MemBlkManager} (n s : ℕ) (d' : Table)
    → IsValid m
    → 0 < n
    → s + n ≤ last_block m
    → Fits m.desc n s
    → Chunks (last_block m) m.desc s
    → Takes n s m.desc d'
    → IsValid (after_take m n d')
IsValid-after_take {m} n s d' v p h f c t = record {
  some_blocks = v.some_blocks;
  entry_pos = v.entry_pos;
  table_fits = v.table_fits;
  pool_fits = v.pool_fits;
  linked = record {
    next_of = λ i g. t.next_same i ∙ v.linked.next_of i g;
    next_of_last = t.next_same (last_block m) ∙ v.linked.next_of_last;
  };
  chunks =
      let here : Chunks (last_block m) d' s =
        allocated n p t.size_at t.used
          (λ j lo hi.
            t.size_in j lo hi ∙ v.free_size j (omega arith) (omega arith) (f j (omega arith) hi))
          (Chunks-frame d' (Chunks-skip n s c f h) (λ j lo hi. t.outside j (inr lo))) in
      Chunks-replace s d' v.chunks (omega arith) (omega arith)
        (inl (f s (omega arith) (omega arith))) (λ j lo hi. t.outside j (inl hi)) here;
  free_size = λ j q r e. elim (dec_lt j s) [
    | yes a ↦ ground (arith, t.outside j, v.free_size j)
    | no a ↦ elim (dec_lt j (s + n)) [
      | yes b ↦ absurd (ground (arith, t.used j))
      | no b ↦ ground (arith, t.outside j, v.free_size j)
    ]
  ];
  used_eq = counted;
  sum_eq = omega (arith, counted, v.used_eq, v.sum_eq, count_used-le d' m.blocks);
}
  where
    added : count_used d' m.blocks ≡ count_used m.desc m.blocks + n
    added = omega (
      arith,
      count_used-add m.desc d' m.blocks s (s + n) f t.used
          (λ j o. ap (λ (x : MemBlkDesc). x.status) (t.outside j o)),
    )

    counted : u32 (m.used_blocks + n) ≡ count_used d' m.blocks
    counted = omega (arith, added, v.used_eq, v.sum_eq, v.pool_fits, count_used-le d' m.blocks)

-- What a call may do: it returns NULL and changes nothing, if the request is empty or no row of
-- free blocks below the last block holds it; or it returns the address of the first such row,
-- which is now an allocation of its own.
pub data Allocated (m : MemBlkManager) (bytes : ℕ) (a : ℕ) (m' : MemBlkManager) : Type 0 where
  refused :
      (bytes ≡ 0)
        ⊎ ((t : ℕ)
            → t + get_required_blocks_from_bytes bytes ≤ last_block m
            → ¬ Fits m.desc (get_required_blocks_from_bytes bytes) t)
      → a ≡ 0
      → m' ≡ m
      → Allocated m bytes a m'
  placed :
      (s : ℕ)
      → s + get_required_blocks_from_bytes bytes ≤ last_block m
      → Fits m.desc (get_required_blocks_from_bytes bytes) s
      → ((t : ℕ) → t < s → ¬ Fits m.desc (get_required_blocks_from_bytes bytes) t)
      → a ≡ m.pool_entry + s * mem_blk_size
      → Takes (get_required_blocks_from_bytes bytes) s m.desc m'.desc
      → m' ≡ after_take m (get_required_blocks_from_bytes bytes) m'.desc
      → Allocated m bytes a m'

-- The blocks for a request are as many as it takes, and no more.
pub required_blocks_bounds :
    (bytes : ℕ)
    → (bytes ≤ get_required_blocks_from_bytes bytes * mem_blk_size)
      × (get_required_blocks_from_bytes bytes * mem_blk_size < bytes + mem_blk_size)
unfolding get_required_blocks_from_bytes
required_blocks_bounds bytes = ground arith

module _ (m : MemBlkManager) (bytes : ℕ) where
  abbrev required : ℕ
  required = get_required_blocks_from_bytes bytes

  allocate_zero : bytes ≡ 0 → allocate_non_cached_memory bytes m ≡ ok 0 m
  unfolding allocate_non_cached_memory
  allocate_zero h = ground arith

  allocate_short :
      bytes ≢ 0 → m.free_blocks < required → allocate_non_cached_memory bytes m ≡ ok 0 m
  unfolding allocate_non_cached_memory
  allocate_short h k = ground arith

  allocate_search :
      bytes ≢ 0
      → required ≤ m.free_blocks
      → allocate_non_cached_memory bytes m
        ≡ finish_allocation required (search_blocks (m.blocks + 1) m.desc required 0 0 0) m
  unfolding allocate_non_cached_memory
  allocate_search h k = ground arith

  finish-Allocated :
      (r : SearchResult)
      → IsValid m
      → bytes ≢ 0
      → FirstFit (last_block m) m.desc required 0 r
      → Returns (λ a m'. IsValid m' × Allocated m bytes a m') (finish_allocation required r m)
  unfolding finish_allocation
  finish-Allocated (found s) v b (lo, h, f, c, first) =
      let p : 0 < required = omega (arith, required_blocks_bounds bytes) in
      let (d', run, t) = take_blocks-Takes m required s p h v.linked in
      subst (Returns (λ a m'. IsValid m' × Allocated m bytes a m')) (sym run) (
        IsValid-after_take required s d' v p h f c t,
        placed s h f (λ u q. first u (omega arith) q) refl t refl,
      )
  finish-Allocated not_found v b f = (v, refused (inr (λ t q. f t (omega arith) q)) refl refl)
  finish-Allocated out_of_fuel v b f = f

  -- From a valid manager MmAllocateNonCachedMemory returns, and leaves a valid manager; it refuses
  -- an empty request and one that no row of free blocks below the last block holds, changing
  -- nothing; any other it puts in the first such row.
  pub allocate-Allocated :
      IsValid m
      → Returns (λ a m'. IsValid m' × Allocated m bytes a m') (allocate_non_cached_memory bytes m)
  allocate-Allocated v = elim (ℕ_discrete bytes 0) [
    | yes z ↦
        subst (Returns (λ a m'. IsValid m' × Allocated m bytes a m')) (sym (allocate_zero z))
          (v, refused (inl z) refl refl)
    | no b ↦ elim (dec_lt m.free_blocks required) [
      | yes short ↦
          subst (Returns (λ a m'. IsValid m' × Allocated m bytes a m'))
            (sym (allocate_short b short))
            (
              v,
              refused
                  (inr (λ t q f. omega (
                    arith,
                    v.used_eq,
                    v.sum_eq,
                    count_used-AllStatus m.desc m.blocks t (t + required) f,
                  )))
                  refl refl,
            )
      | no enough ↦
          subst (Returns (λ a m'. IsValid m' × Allocated m bytes a m'))
            (sym (allocate_search b (omega arith)))
            (finish-Allocated _ v b (
              search_blocks-FirstFit required (m.blocks + 1) 0 0 0 v.linked
                (omega (arith, required_blocks_bounds bytes)) (omega arith) (omega arith)
                (λ j lo hi. absurd (omega arith)) v.chunks v.chunks (omega (arith, v.some_blocks))))
    ]
  ]
