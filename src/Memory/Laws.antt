-- ===== src/Memory/Laws.antt =====
-- How MmAllocateNonCachedMemory and MmFreeNonCachedMemory act together.
use mathlib.Core.Path.{subst}
use native.Mathlib.Decide.{dec_lt}
use mylysos.Base.{
  ℕ, ◌+◌, ◌-◌, ◌*◌, ◌/◌, ◌≤◌, ◌<◌, ◌≡◌, ◌≢◌, sym, ap, ◌∙◌, ◌⊎◌, inl, inr, arith, ok, Returns,
  Returns-map,
}
use mylysos.Memory.{
  MemBlkDesc, MemBlkManager, mem_blk_size, allocate_non_cached_memory, free_non_cached_memory,
  get_required_blocks_from_bytes,
}
use mylysos.Memory.Search.{Fits}
use mylysos.Memory.Valid.{IsValid}
use mylysos.Memory.Alloc.{Allocated, refused, placed, allocate-Allocated, required_blocks_bounds}
use mylysos.Memory.Free.{
  Live, Live-of_size, Freed, ignored, released, InPool, block_of, free-Freed, free-enter,
  free_at-free,
}

abbrev address : MemBlkManager → ℕ → ℕ
address m s = m.pool_entry + s * mem_blk_size

-- The outcome of a call that is known to return.
pub Allocated-of_run :
    {m m' : MemBlkManager} {a : ℕ} (bytes : ℕ)
    → IsValid m
    → allocate_non_cached_memory bytes m ≡ ok a m'
    → IsValid m' × Allocated m bytes a m'
Allocated-of_run {m} bytes v e =
    subst (Returns (λ a m'. IsValid m' × Allocated m bytes a m')) e (allocate-Allocated m bytes v)

pub Freed-of_run :
    {m m' : MemBlkManager} (base : ℕ)
    → IsValid m
    → InPool m base
    → free_non_cached_memory base m ≡ ok tt m'
    → IsValid m' × Freed m base m'
Freed-of_run {m} base v h e =
    subst (Returns (λ _ m'. IsValid m' × Freed m base m')) e (free-Freed m base v h)

-- An empty request is refused.
nonempty_of_run :
    (m : MemBlkManager) {m' : MemBlkManager} {a : ℕ} (bytes : ℕ)
    → allocate_non_cached_memory bytes m ≡ ok a m'
    → a ≢ 0
    → 0 < bytes
unfolding allocate_non_cached_memory
nonempty_of_run m bytes e ne = ground arith

-- What a returned address is good for: its bytes lie in the pool, in whole blocks, they share no
-- byte with an allocation that was live before, and that allocation stays live.
pub record Fresh (m m' : MemBlkManager) (bytes a s n : ℕ) : Type 0 where
  pub in_pool : (m.pool_entry ≤ a) × (a + bytes ≤ m.pool_entry + m.blocks * mem_blk_size)
  pub apart : (a + bytes ≤ address m s) ⊎ (address m s + n * mem_blk_size ≤ a)
  pub still_live : Live m' s n

-- A free row and a live allocation share no block.
rows_apart :
    {m : MemBlkManager} (k t s n : ℕ)
    → 0 < k
    → Fits m.desc k t
    → Live m s n
    → (t + k ≤ s) ⊎ (s + n ≤ t)
rows_apart k t s n p f l = elim (dec_lt t s) [
  | yes before ↦ elim (dec_lt s (t + k)) [
    | yes inside ↦
        absurd (
          omega
            (arith, f s (omega arith) inside, l.all_used s (omega arith) (omega (arith, l.pos))))
    | no behind ↦ inl (omega arith)
  ]
  | no after ↦ elim (dec_lt t (s + n)) [
    | yes inside ↦
        absurd (omega (arith, f t (omega arith) (omega arith), l.all_used t (omega arith) inside))
    | no behind ↦ inr (omega arith)
  ]
]

-- A successful allocation lies in the pool, overlaps no live allocation, and leaves every one live.
pub allocate-Fresh :
    {m m' : MemBlkManager} {a : ℕ} (bytes s n : ℕ)
    → IsValid m
    → Live m s n
    → allocate_non_cached_memory bytes m ≡ ok a m'
    → a ≢ 0
    → Fresh m m' bytes a s n
allocate-Fresh {m} {m'} {a} bytes s n v l e ne = go (Allocated-of_run bytes v e).1
  where
    positive : 0 < bytes
    positive = nonempty_of_run m bytes e ne

    go : Allocated m bytes a m' → Fresh m m' bytes a s n
    go (refused why z k) = absurd (ne z)
    go (placed t h f first at take same) =
        let same_blocks : m'.blocks ≡ m.blocks = ap (λ (x : MemBlkManager). x.blocks) same in
        let b = required_blocks_bounds bytes in
        let p : 0 < get_required_blocks_from_bytes bytes = omega (arith, b, positive) in
        let rows = rows_apart (get_required_blocks_from_bytes bytes) t s n p f l in
        let kept : m'.desc s ≡ m.desc s =
          take.outside s (elim rows [ inl x ↦ inr x | inr x ↦ inl (omega (arith, l.pos)) ]) in
        record {
          in_pool = (omega arith, omega (arith, b, v.some_blocks));
          apart = elim rows [ inl x ↦ inl (omega (arith, b)) | inr x ↦ inr (omega arith) ];
          still_live = subst (Live m' s) (ap (λ (x : MemBlkDesc). x.block_size) kept ∙ l.size_eq) (
              Live-of_size s (Allocated-of_run bytes v e).0 (omega (arith, l.below, l.pos))
                (ground (arith, kept, l.all_used s (omega arith) (omega (arith, l.pos))))
                (ground (arith, kept, l.size_eq, l.pos)));
        }

-- The same blocks in the same state: only the size noted for block 0 may differ, while it is free.
pub record Restored (m m' : MemBlkManager) : Type 0 where
  pub counters : (m'.free_blocks ≡ m.free_blocks) × (m'.used_blocks ≡ m.used_blocks)
  pub status_same : (j : ℕ) → (m'.desc j).status ≡ (m.desc j).status
  pub next_same : (j : ℕ) → (m'.desc j).next ≡ (m.desc j).next
  pub size_same : (j : ℕ) → 0 < j → j < m.blocks → (m'.desc j).block_size ≡ (m.desc j).block_size

-- A second free of an address changes nothing.
pub free-free :
    {m m' : MemBlkManager} (base : ℕ)
    → IsValid m
    → InPool m base
    → free_non_cached_memory base m ≡ ok tt m'
    → free_non_cached_memory base m' ≡ ok tt m'
free-free {m} {m'} base v h e = go (Freed-of_run base v h e).1
  where
    go : Freed m base m' → free_non_cached_memory base m' ≡ ok tt m'
    go (ignored why same) =
        subst (λ x. free_non_cached_memory base x ≡ ok tt x) (sym same)
          (subst (λ x. free_non_cached_memory base m ≡ ok tt x) same e)
    go (released n l c same) =
        let blocks_same : m'.blocks ≡ m.blocks = ap (λ (x : MemBlkManager). x.blocks) same in
        let pool_same : m'.pool_entry ≡ m.pool_entry =
          ap (λ (x : MemBlkManager). x.pool_entry) same in
        let there : block_of m' base ≡ block_of m base =
          ap (λ (x : ℕ). (base - x) / mem_blk_size) pool_same in
        free-enter m' base (Freed-of_run base v h e).0 (omega arith)
        ∙ free_at-free m' base (block_of m' base)
            (rw there (ground (arith, c.inside (block_of m base), l.pos)))

-- No request for as many blocks as the pool has is ever met: the last block is out of reach.
pub allocate_all :
    {m : MemBlkManager} (bytes : ℕ)
    → IsValid m
    → m.blocks ≤ get_required_blocks_from_bytes bytes
    → Returns (λ a m'. (a ≡ 0) × (m' ≡ m)) (allocate_non_cached_memory bytes m)
allocate_all {m} bytes v h =
    Returns-map (λ a m'. IsValid m' × Allocated m bytes a m') (λ a m'. (a ≡ 0) × (m' ≡ m)) _
      (allocate-Allocated m bytes v) λ a m' run (v', out). go out
  where
    go : {a : ℕ} {m' : MemBlkManager} → Allocated m bytes a m' → (a ≡ 0) × (m' ≡ m)
    go (refused why z k) = (z, k)
    go (placed t k f first at take same) = absurd (omega (arith, v.some_blocks))
