-- ===== src/Memory/Valid.antt =====
-- The invariant of the memory manager, and how a row of chunks changes with its blocks.
use native.Mathlib.Decide.{dec_lt}
use mylysos.Base.{ℕ, zero, suc, ◌+◌, ◌-◌, ◌*◌, ◌^◌, ◌≤◌, ◌<◌, ◌≡◌, ◌⊎◌, arith}
use mylysos.Memory.{MemBlkManager, mem_blk_free, mem_blk_size, sizeof_desc}
use mylysos.Memory.Table.{
  Table, AllStatus, Chunks, end, free_one, allocated, SameOn, Linked, count_used,
}

-- The index of the last block.
abbrev pub last_block : MemBlkManager → ℕ
last_block m = m.blocks - 1

-- The descriptors lie below the pool and the pool below 2 ^ 31; the descriptors are linked in
-- order and are a row of chunks; the counters are right.
pub record IsValid (m : MemBlkManager) : Type 0 where
  pub some_blocks : 0 < m.blocks
  pub entry_pos : 0 < m.desc_entry
  pub table_fits : m.desc_entry + m.blocks * sizeof_desc ≤ m.pool_entry
  pub pool_fits : m.pool_entry + m.blocks * mem_blk_size ≤ 2 ^ 31
  pub linked : Linked (last_block m) m.desc
  pub chunks : Chunks (last_block m) m.desc 0
  pub free_size :
      (j : ℕ) → 0 < j → j < m.blocks → (m.desc j).status ≡ mem_blk_free → (m.desc j).block_size ≡ 0
  pub used_eq : m.used_blocks ≡ count_used m.desc m.blocks
  pub sum_eq : m.free_blocks + m.used_blocks ≡ m.blocks

-- A chunk begins at `s`: a block inside an allocation is in use and has no size.
abbrev pub Boundary : Table → ℕ → Type 0
Boundary d s = ((d s).status ≡ mem_blk_free) ⊎ (0 < (d s).block_size)

module _ {last : ℕ} {d : Table} where
  pub Chunks-at :
      {i : ℕ} (s : ℕ) → Chunks last d i → i ≤ s → s ≤ last → Boundary d s → Chunks last d s
  Chunks-at {i} s (end e f) h g b = let here : s ≡ i = omega arith in rw here (end e f)
  Chunks-at {i} s (free_one e f c) h g b = elim (dec_lt i s) [
    | yes before ↦ Chunks-at s c (omega arith) g b
    | no at ↦ let here : s ≡ i = omega arith in rw here (free_one e f c)
  ]
  Chunks-at {i} s (allocated n p z u k c) h g b = elim (dec_lt i s) [
    | yes before ↦ Chunks-at s c (behind before) g b
    | no at ↦ let here : s ≡ i = omega arith in rw here (allocated n p z u k c)
  ]
    where
      behind : i < s → i + n ≤ s
      behind before = grind (arith, u s, k s)

  -- Blocks from a boundary on may change, if they are a row of chunks again.
  pub Chunks-replace :
      {i : ℕ} (s : ℕ) (d' : Table)
      → Chunks last d i
      → i ≤ s
      → s ≤ last
      → Boundary d s
      → SameOn i s d d'
      → Chunks last d' s
      → Chunks last d' i
  Chunks-replace {i} s d' (end e f) h g b same t = let here : i ≡ s = omega arith in rw here t
  Chunks-replace {i} s d' (free_one e f c) h g b same t = elim (dec_lt i s) [
    | yes before ↦
        free_one e (ground (arith, same i))
          (Chunks-replace s d' c (omega arith) g b (λ j p q. same j (omega arith) q) t)
    | no at ↦ let here : i ≡ s = omega arith in rw here t
  ]
  Chunks-replace {i} s d' (allocated n p z u k c) h g b same t = elim (dec_lt i s) [
    | yes before ↦
        let l = behind before in
        allocated n p (ground (arith, same i)) (λ j q r. ground (arith, same j, u j))
          (λ j q r. ground (arith, same j, k j))
          (Chunks-replace s d' c l g b (λ j q r. same j (omega arith) r) t)
    | no at ↦ let here : i ≡ s = omega arith in rw here t
  ]
    where
      behind : i < s → i + n ≤ s
      behind before = grind (arith, u s, k s)

  pub Chunks-free_row :
      (n i : ℕ)
      → i + n ≤ last
      → AllStatus mem_blk_free d i (i + n)
      → Chunks last d (i + n)
      → Chunks last d i
  Chunks-free_row zero i h f c = let here : i ≡ i + 0 = omega arith in rw here c
  Chunks-free_row (suc n) i h f c = free_one (omega arith) (f i (omega arith) (omega arith)) (
      Chunks-free_row n (i + 1) (omega arith) (λ j p q. f j (omega arith) (omega arith))
        (let there : i + 1 + n ≡ i + suc n = omega arith in rw there c))
