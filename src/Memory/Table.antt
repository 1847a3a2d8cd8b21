-- ===== src/Memory/Table.antt =====
-- The descriptor table as a row of chunks: single free blocks and allocations. The last block is
-- in no allocation, since the search stops at the descriptor without a successor.
use mylysos.Base.{
  ℕ, zero, suc, ◌+◌, ◌-◌, ◌≤◌, ◌<◌, ◌≡◌, refl, ap, ◌∙◌, ◌⊎◌, none, some, min, arith, update,
  update_self, update_ne, ◌==◌, if◌then◌else◌,
}
use mylysos.Memory.{MemBlkDesc, mem_blk_free, mem_blk_used, for_blocks}

abbrev pub Table : Type 0
Table = ℕ → MemBlkDesc

-- The blocks from `lo` on, below `hi`, have a status.
abbrev pub AllStatus : ℕ → Table → ℕ → ℕ → Type 0
AllStatus s d lo hi = (j : ℕ) → lo ≤ j → j < hi → (d j).status ≡ s

-- The blocks from `i` to `last` are a row of chunks.
pub data Chunks (last : ℕ) (d : Table) : ℕ → Type 0 where
  end : {i : ℕ} → i ≡ last → (d i).status ≡ mem_blk_free → Chunks last d i
  free_one :
      {i : ℕ} → i < last → (d i).status ≡ mem_blk_free → Chunks last d (i + 1) → Chunks last d i
  allocated :
      {i : ℕ} (n : ℕ)
      → 0 < n
      → (d i).block_size ≡ n
      → AllStatus mem_blk_used d i (i + n)
      → ((j : ℕ) → i < j → j < i + n → (d j).block_size ≡ 0)
      → Chunks last d (i + n)
      → Chunks last d i

-- Every descriptor but the last points at the one behind it.
pub record Linked (last : ℕ) (d : Table) : Type 0 where
  pub next_of : (i : ℕ) → i < last → (d i).next ≡ some (i + 1)
  pub next_of_last : (d last).next ≡ none

-- `d'` agrees with `d` from `lo` on, below `hi`.
abbrev pub SameOn : ℕ → ℕ → Table → Table → Type 0
SameOn lo hi d d' = (j : ℕ) → lo ≤ j → j < hi → d' j ≡ d j

module _ {last : ℕ} where
  pub Chunks-le : {d : Table} {i : ℕ} → Chunks last d i → i ≤ last
  Chunks-le (end e s) = omega arith
  Chunks-le (free_one h s c) = omega arith
  Chunks-le (allocated n p e u z c) = omega (arith, Chunks-le c)

  -- The rest of the row depends on the blocks from `i` on only.
  pub Chunks-frame :
      {d : Table} (d' : Table) {i : ℕ}
      → Chunks last d i
      → SameOn i (last + 1) d d'
      → Chunks last d' i
  Chunks-frame d' {i} (end e s) same = end e (ground (arith, same i))
  Chunks-frame d' {i} (free_one h s c) same =
      free_one h (ground (arith, same i)) (Chunks-frame d' c (λ j p q. same j (omega arith) q))
  Chunks-frame d' {i} (allocated n p e u z c) same =
      let b = Chunks-le c in
      allocated n p (ground (arith, same i)) (λ j q r. ground (arith, same j, u j))
        (λ j q r. ground (arith, same j, z j)) (Chunks-frame d' c (λ j q r. same j (omega arith) r))

  -- Free blocks at the front of the row can be taken off it.
  pub Chunks-skip :
      {d : Table} (n i : ℕ)
      → Chunks last d i
      → AllStatus mem_blk_free d i (i + n)
      → i + n ≤ last
      → Chunks last d (i + n)
  Chunks-skip zero i c f h = let e : i + 0 ≡ i = omega arith in rw e c
  Chunks-skip (suc n) i (end e s) f h = absurd (omega arith)
  Chunks-skip (suc n) i (free_one g s c) f h =
      let e : i + suc n ≡ i + 1 + n = omega arith in
      rw e (Chunks-skip n (i + 1) c (λ j p q. f j (omega arith) (omega arith)) (omega arith))
  Chunks-skip (suc n) i (allocated k p e u z c) f h =
      absurd (omega (arith, u i (omega arith) (omega arith), f i (omega arith) (omega arith)))

-- `d'` is `d` with `change` applied to the descriptors from `lo` on, below `hi`.
pub record Changed (change : MemBlkDesc → MemBlkDesc) (lo hi : ℕ) (d d' : Table) : Type 0 where
  pub inside : (j : ℕ) → lo ≤ j → j < hi → d' j ≡ change (d j)
  pub outside : (j : ℕ) → (j < lo) ⊎ (hi ≤ j) → d' j ≡ d j

for_blocks-suc :
    (change : MemBlkDesc → MemBlkDesc) (rounds i k : ℕ) (d : Table)
    → (d i).next ≡ some k
    → for_blocks change (suc rounds) (some i) d
      ≡ for_blocks change rounds (some k) (update d i (change (d i)))
unfolding for_blocks
for_blocks-suc change rounds i k d e =
    ap (λ o. for_blocks change rounds o (update d i (change (d i)))) e

-- With the pointers intact the loop runs to its end, and changes the blocks in a row.
pub for_blocks-Changed :
    (change : MemBlkDesc → MemBlkDesc) (rounds i : ℕ) (d : Table)
    → ((j : ℕ) → i ≤ j → j < i + rounds → (d j).next ≡ some (j + 1))
    → (d' : Table) × (for_blocks change rounds (some i) d ≡ some d')
      × Changed change i (i + rounds) d d'
for_blocks-Changed change zero i d linked = (
  d,
  unfold for_blocks in refl,
  record { inside = λ j p q. absurd (omega arith); outside = λ j p. refl },
)
for_blocks-Changed change (suc rounds) i d linked =
    let (d', run, c) =
      for_blocks-Changed change rounds (i + 1) (update d i (change (d i))) (λ j p q.
        rw (update_ne d i (change (d i)) j (omega arith)) (linked j (omega arith) (omega arith))) in
    (
      d',
      for_blocks-suc change rounds i (i + 1) d (linked i (omega arith) (omega arith)) ∙ run,
      record {
        inside = λ j p q. ground (
          arith,
          c.inside j,
          c.outside j,
          update_self d i (change (d i)),
          update_ne d i (change (d i)) j,
        );
        outside = λ j p. ground (arith, c.outside j, update_ne d i (change (d i)) j);
      },
    )

-- The number of used blocks below `n`.
pub count_used : Table → ℕ → ℕ
count_used d zero = 0
count_used d (suc n) = count_used d n + (if (d n).status == mem_blk_used then 1 else 0)

pub count_used-le : (d : Table) (n : ℕ) → count_used d n ≤ n
unfolding count_used
count_used-le d zero = omega arith
count_used-le d (suc n) = ground (arith, count_used-le d n)

-- A row of free blocks leaves that much room.
pub count_used-AllStatus :
    (d : Table) (n lo hi : ℕ)
    → AllStatus mem_blk_free d lo hi
    → count_used d n + (min n hi - lo) ≤ n
unfolding count_used
count_used-AllStatus d zero lo hi f = omega arith
count_used-AllStatus d (suc n) lo hi f = ground (arith, count_used-AllStatus d n lo hi f, f n)

-- Blocks that turn from free to used, while the others keep their status, are counted.
pub count_used-add :
    (d d' : Table) (n lo hi : ℕ)
    → AllStatus mem_blk_free d lo hi
    → AllStatus mem_blk_used d' lo hi
    → ((j : ℕ) → (j < lo) ⊎ (hi ≤ j) → (d' j).status ≡ (d j).status)
    → count_used d' n ≡ count_used d n + (min n hi - lo)
unfolding count_used
count_used-add d d' zero lo hi f u o = omega arith
count_used-add d d' (suc n) lo hi f u o =
    ground (arith, count_used-add d d' n lo hi f u o, f n, u n, o n)
