-- ===== src/Memory/Apart.antt =====
-- Freeing one allocation leaves the others alone.
use mathlib.Core.Path.{subst}
use native.Mathlib.Decide.{dec_lt}
use mylysos.Base.{
  ℕ, ◌+◌, ◌*◌, ◌≤◌, ◌<◌, ◌≡◌, ◌≢◌, sym, ap, ◌∙◌, ◌⊎◌, inl, inr, arith, ok, Returns-ok,
}
use mylysos.Memory.{MemBlkDesc, MemBlkManager, mem_blk_size, free_non_cached_memory}
use mylysos.Memory.Table.{Chunks, end, free_one, allocated}
use mylysos.Memory.Valid.{IsValid, last_block, Chunks-at}
use mylysos.Memory.Free.{Live, Live-of_size, Freed, ignored, released, block_of, InPool, free-Freed}

-- The blocks of an allocation behind its first have no size.
Live-inner :
    {m : MemBlkManager} (s n j : ℕ)
    → IsValid m
    → Live m s n
    → s < j
    → j < s + n
    → (m.desc j).block_size ≡ 0
Live-inner {m} s n j v l lo hi = go (
    Chunks-at s v.chunks (omega arith) (omega (arith, l.below))
      (inr (omega (arith, l.size_eq, l.pos))))
  where
    go : Chunks (last_block m) m.desc s → (m.desc j).block_size ≡ 0
    go (end e f) = absurd (omega (arith, l.below, l.pos))
    go (free_one e f c) =
        absurd (omega (arith, f, l.all_used s (omega arith) (omega (arith, l.pos))))
    go (allocated k q z w i c) = i j lo (omega (arith, z, l.size_eq))

-- Two allocations that begin in different blocks share none.
pub lives_apart :
    {m : MemBlkManager} (s n t k : ℕ)
    → IsValid m
    → Live m s n
    → Live m t k
    → s ≢ t
    → (s + n ≤ t) ⊎ (t + k ≤ s)
lives_apart s n t k v l r ne = elim (dec_lt s t) [
  | yes before ↦ elim (dec_lt t (s + n)) [
    | yes inside ↦ absurd (omega (arith, Live-inner s n t v l before inside, r.size_eq, r.pos))
    | no behind ↦ inl (omega arith)
  ]
  | no after ↦ elim (dec_lt s (t + k)) [
    | yes inside ↦
        absurd
          (omega (arith, Live-inner t k s v r (omega (arith, after, ne)) inside, l.size_eq, l.pos))
    | no behind ↦ inr (omega arith)
  ]
]

-- What a free of the allocation at block `s` leaves.
pub record FreedAt (m : MemBlkManager) (s : ℕ) (m' : MemBlkManager) : Type 0 where
  pub valid : IsValid m'
  pub entry_same : m'.pool_entry ≡ m.pool_entry
  pub others : (t k : ℕ) → t ≢ s → Live m t k → Live m' t k
  pub gone : (k : ℕ) → ¬ Live m' s k

pub free-Live :
    (m : MemBlkManager) (s n : ℕ)
    → IsValid m
    → Live m s n
    → (m' : MemBlkManager) × (free_non_cached_memory (m.pool_entry + s * mem_blk_size) m ≡ ok tt m')
      × FreedAt m s m'
free-Live m s n v l =
    let base = m.pool_entry + s * mem_blk_size in
    let in_pool : InPool m base = (omega arith, omega (arith, l.below, l.pos, v.some_blocks)) in
    let (u, m', run, (v', out)) =
      Returns-ok (λ _ m'. IsValid m' × Freed m base m') (free_non_cached_memory base m)
        (free-Freed m base v in_pool) in
    (m', run, go m' v' out)
  where
    there : block_of m (m.pool_entry + s * mem_blk_size) ≡ s
    there = omega arith

    go :
        (m' : MemBlkManager)
        → IsValid m'
        → Freed m (m.pool_entry + s * mem_blk_size) m'
        → FreedAt m s m'
    go m' v' (ignored why same) = absurd (elim why [
      | inl x ↦ x (
          ap (λ (i : ℕ). (m.desc i).status) there
          ∙ l.all_used s (omega arith) (omega (arith, l.pos)))
      | inr x ↦ omega (arith, x, ap (λ (i : ℕ). (m.desc i).block_size) there, l.size_eq, l.pos)
    ])
    go m' v' (released k r c same) = record {
      valid = v';
      entry_same = ap (λ (x : MemBlkManager). x.pool_entry) same;
      others = λ t j ne o.
          let size : k ≡ n =
            sym r.size_eq ∙ ap (λ (i : ℕ). (m.desc i).block_size) there ∙ l.size_eq in
          let blocks_same : m'.blocks ≡ m.blocks = ap (λ (x : MemBlkManager). x.blocks) same in
          let rows = lives_apart s n t j v l o (λ e. ne (sym e)) in
          let kept : m'.desc t ≡ m.desc t = c.outside t (elim rows [
            | inl x ↦ inr (omega (arith, there, size, x))
            | inr x ↦ inl (omega (arith, there, x, o.pos))
          ]) in
          subst (Live m' t) (ap (λ (x : MemBlkDesc). x.block_size) kept ∙ o.size_eq) (
            Live-of_size t v' (omega (arith, blocks_same, o.below, o.pos))
              (ap (λ (x : MemBlkDesc). x.status) kept
                ∙ o.all_used t (omega arith) (omega (arith, o.pos)))
              (omega (arith, ap (λ (x : MemBlkDesc). x.block_size) kept, o.size_eq, o.pos)));
      gone = λ j o.
          let free_now =
            ap (λ (x : MemBlkDesc). x.status)
              (c.inside s (omega (arith, there)) (omega (arith, there, r.pos))) in
          omega (arith, free_now, o.all_used s (omega arith) (omega (arith, o.pos)));
    }
