-- ===== src/Memory/Init/Laws.antt =====
-- The pool starts valid.
use mathlib.Core.Path.{subst}
use mylysos.Base.{
  ℕ, zero, suc, ◌+◌, ◌-◌, ◌*◌, ◌%◌, ◌^◌, ◌≤◌, ◌<◌, ◌≡◌, refl, sym, ◌∙◌, none, some, arith, update,
  update_self, update_ne, u32, sub32,
}
use mylysos.Memory.{
  MemBlkManager, mem_blk_free, memory_pool_start_address, mem_blk_size, sizeof_desc,
  get_required_blocks_from_bytes,
}
use mylysos.Memory.Table.{Table, end, count_used, count_used-AllStatus}
use mylysos.Memory.Valid.{IsValid, Chunks-free_row}
use mylysos.Memory.Alloc.{required_blocks_bounds}
use mylysos.Memory.Init.{
  link_blocks, create_descs, create_mem_pool_blk, allocatable_blocks, pool_entry_address,
  fresh_manager,
}

-- The blocks below `n` are free and linked in order.
record Initialised (n : ℕ) (d : Table) : Type 0 where
  statuses : (j : ℕ) → j < n → (d j).status ≡ mem_blk_free
  sizes : (j : ℕ) → 0 < j → j < n → (d j).block_size ≡ 0
  nexts : (j : ℕ) → j + 1 < n → (d j).next ≡ some (j + 1)

Initialised-step :
    (prev : ℕ) (d : Table)
    → Initialised (prev + 1) d
    → let blank = record (d (prev + 1)) { status = mem_blk_free; block_size = 0 } in
      let d' = update d (prev + 1) blank in
      Initialised (prev + 2) (update d' prev (record (d' prev) { next = some (prev + 1) }))
Initialised-step prev d i =
    let blank = record (d (prev + 1)) { status = mem_blk_free; block_size = 0 } in
    let d' = update d (prev + 1) blank in
    let linked = record (d' prev) { next = some (prev + 1) } in
    record {
      statuses = λ j p. ground (
        arith,
        update_self d (prev + 1) blank,
        update_ne d (prev + 1) blank j,
        update_self d' prev linked,
        update_ne d' prev linked j,
        update_ne d (prev + 1) blank prev,
        i.statuses j,
        i.statuses prev,
      );
      sizes = λ j q p. ground (
        arith,
        update_self d (prev + 1) blank,
        update_ne d (prev + 1) blank j,
        update_self d' prev linked,
        update_ne d' prev linked j,
        update_ne d (prev + 1) blank prev,
        i.sizes j,
        i.sizes prev,
      );
      nexts = λ j p. ground (
        arith,
        update_self d (prev + 1) blank,
        update_ne d (prev + 1) blank j,
        update_self d' prev linked,
        update_ne d' prev linked j,
        update_ne d (prev + 1) blank prev,
        i.nexts j,
        i.nexts prev,
      );
    }

link_blocks-Initialised :
    (rounds prev : ℕ) (d : Table)
    → Initialised (prev + 1) d
    → ((link_blocks rounds (prev + 1) prev d).0 ≡ prev + rounds)
      × Initialised (prev + 1 + rounds) (link_blocks rounds (prev + 1) prev d).1
unfolding link_blocks
link_blocks-Initialised zero prev d i =
    (omega arith, let e : prev + 1 + 0 ≡ prev + 1 = omega arith in rw e i)
link_blocks-Initialised (suc rounds) prev d i =
    let blank = record (d (prev + 1)) { status = mem_blk_free; block_size = 0 } in
    let d' = update d (prev + 1) blank in
    let d'' = update d' prev (record (d' prev) { next = some (prev + 1) }) in
    let e : prev + 1 + 1 ≡ prev + 2 = omega arith in
    let (at, r) =
      link_blocks-Initialised rounds (prev + 1) d'' (rw e (Initialised-step prev d i)) in
    let f : prev + 1 + 1 + rounds ≡ prev + 1 + suc rounds = omega arith in
    (
      at ∙ omega arith,
      subst (λ n. Initialised n (link_blocks rounds (prev + 1 + 1) (prev + 1) d'').1) f r,
    )

Initialised-end :
    (n cur : ℕ) (d : Table)
    → Initialised n d
    → 0 < n
    → cur ≡ n - 1
    → let d' = update d cur (record (d cur) { next = none }) in
      Initialised n d' × ((d' (n - 1)).next ≡ none)
Initialised-end n cur d i h e =
    let last = record (d cur) { next = none } in
    (
      record {
        statuses =
            λ j p. ground (arith, update_self d cur last, update_ne d cur last j, i.statuses j);
        sizes = λ j q p. ground (arith, update_self d cur last, update_ne d cur last j, i.sizes j);
        nexts = λ j p. ground (arith, update_ne d cur last j, i.nexts j);
      },
      ground (arith, update_self d cur last),
    )

create_descs-Initialised :
    (n : ℕ) (raw : Table)
    → 0 < n
    → Initialised n (create_descs n raw) × ((create_descs n raw (n - 1)).next ≡ none)
unfolding create_descs
create_descs-Initialised n raw h =
    let blank = record (raw 0) { status = mem_blk_free } in
    let d = update raw 0 blank in
    let first : Initialised 1 d = record {
      statuses = λ j p. ground (arith, update_self raw 0 blank);
      sizes = λ j q p. absurd (omega arith);
      nexts = λ j p. absurd (omega arith);
    } in
    let (at, i) = link_blocks-Initialised (n - 1) 0 d first in
    let (cur, d') = link_blocks (n - 1) 1 0 d in
    Initialised-end n cur d' (subst (λ k. Initialised k d') {y = n} (omega arith) i) h
      (omega (arith, at))

count_used-free :
    (n : ℕ) (d : Table) → ((j : ℕ) → j < n → (d j).status ≡ mem_blk_free) → count_used d n ≡ 0
count_used-free n d f = omega (arith, count_used-AllStatus d n 0 n (λ j lo hi. f j hi))

fresh_manager-IsValid :
    (n pool : ℕ) (d : Table)
    → 0 < n
    → Initialised n d
    → (d (n - 1)).next ≡ none
    → memory_pool_start_address + n * sizeof_desc ≤ pool
    → pool + n * mem_blk_size ≤ 2 ^ 31
    → IsValid (fresh_manager n pool d)
fresh_manager-IsValid n pool d h i l t p = record {
  some_blocks = h;
  entry_pos = omega arith;
  table_fits = t;
  pool_fits = p;
  linked = record { next_of = λ j q. i.nexts j (omega arith); next_of_last = l };
  chunks =
      Chunks-free_row (n - 1) 0 (omega arith) (λ j lo hi. i.statuses j (omega arith))
        (end (omega arith) (i.statuses (0 + (n - 1)) (omega arith)));
  free_size = λ j q r e. i.sizes j q r;
  used_eq = sym (count_used-free n d i.statuses);
  sum_eq = omega arith;
}

-- The table and the pool fit between the start of the pool and the end of the memory.
pool_layout :
    (mem_size : ℕ)
    → mem_size % mem_blk_size ≡ 0
    → memory_pool_start_address + 8 * mem_blk_size ≤ mem_size
    → mem_size ≤ 2 ^ 31
    → let n = allocatable_blocks mem_size in
      (2 ≤ n)
      × (memory_pool_start_address + n * sizeof_desc ≤ pool_entry_address n)
      × (pool_entry_address n + n * mem_blk_size ≤ mem_size)
unfolding allocatable_blocks pool_entry_address
pool_layout mem_size a b c =
    let usable = get_required_blocks_from_bytes (sub32 mem_size memory_pool_start_address) in
    let descs = get_required_blocks_from_bytes (u32 (usable * sizeof_desc)) in
    let n = sub32 usable descs in
    let p = required_blocks_bounds (sub32 mem_size memory_pool_start_address) in
    let q = required_blocks_bounds (u32 (usable * sizeof_desc)) in
    let r = required_blocks_bounds (u32 (n * sizeof_desc)) in omega (arith, p, q, r)

module _ (mem_size : ℕ) (raw : Table) where
  -- For a memory size that is a whole number of blocks, at least eight blocks beyond the start of
  -- the pool and at most 2 GB, MmpCreateMemPoolBlk succeeds: the manager is valid, every block is
  -- free, and the pool ends where the memory ends at the latest.
  pub create_mem_pool_blk-IsValid :
      mem_size % mem_blk_size ≡ 0
      → memory_pool_start_address + 8 * mem_blk_size ≤ mem_size
      → mem_size ≤ 2 ^ 31
      → (m : MemBlkManager) × (create_mem_pool_blk mem_size raw ≡ some m)
        × IsValid m
        × (m.used_blocks ≡ 0)
        × (m.pool_entry + m.blocks * mem_blk_size ≤ mem_size)
  unfolding create_mem_pool_blk
  create_mem_pool_blk-IsValid a b c =
      let n = allocatable_blocks mem_size in
      let (two, table, pool) = pool_layout mem_size a b c in
      let (i, l) = create_descs-Initialised n raw (omega arith) in
      (
        fresh_manager n (pool_entry_address n) (create_descs n raw),
        ground arith,
        fresh_manager-IsValid n (pool_entry_address n) (create_descs n raw) (omega arith) i l table
            (omega arith),
        refl,
        pool,
      )
