-- ===== src/Memory/Tests.antt =====
-- The memory manager on a pool of seven blocks, and its theorems there.
use mylysos.Base.{◌+◌, ◌*◌, ◌≤◌, ◌≡◌, refl, some, arith, update, Run, ok, fault, hung, Returns}
use mylysos.Memory.{
  MemBlkManager, mem_blk_size, allocate_non_cached_memory, free_non_cached_memory, free_blocks_at,
  get_required_blocks_from_bytes, get_pool_addr_from_desc_addr, get_desc_addr_from_pool_addr,
  desc_index,
}
use mylysos.Memory.Samples.{raw, pool, pool-IsValid}
use mylysos.Memory.Valid.{IsValid}
use mylysos.Memory.Alloc.{Allocated, allocate-Allocated}
use mylysos.Memory.Free.{Live, InPool, Freed, free-Freed, Live-of_size}
use mylysos.Memory.Laws.{Fresh, allocate-Fresh, free-free, allocate_all, Allocated-of_run}
use mylysos.Memory.Init.{create_mem_pool_blk, create_descs, link_blocks}
use mylysos.Memory.Init.Laws.{create_mem_pool_blk-IsValid}

abbrev state_of : {A : Type 0} → Run MemBlkManager A → MemBlkManager
state_of (ok a m) = m
state_of fault = pool
state_of hung = pool

-- 600 bytes take two blocks, at the start of the pool; 100 more take the third.
abbrev one : MemBlkManager
one = state_of (allocate_non_cached_memory 600 pool)

abbrev two : MemBlkManager
two = state_of (allocate_non_cached_memory 100 one)

allocate_one : allocate_non_cached_memory 600 pool ≡ ok 0x200200 one
unfolding allocate_non_cached_memory get_required_blocks_from_bytes get_pool_addr_from_desc_addr
    create_descs link_blocks update
allocate_one = refl

allocate_two : allocate_non_cached_memory 100 one ≡ ok 0x200600 two
unfolding allocate_non_cached_memory get_required_blocks_from_bytes get_pool_addr_from_desc_addr
    create_descs link_blocks update
allocate_two = refl

one-IsValid : IsValid one
one-IsValid = (Allocated-of_run 600 pool-IsValid allocate_one).0

one-Live : Live one 0 2
unfolding allocate_non_cached_memory get_required_blocks_from_bytes get_pool_addr_from_desc_addr
    create_descs link_blocks update
one-Live = Live-of_size 0 one-IsValid (omega arith) refl (omega arith)

one-InPool : InPool one 0x200200
unfolding allocate_non_cached_memory get_required_blocks_from_bytes get_pool_addr_from_desc_addr
    create_descs link_blocks update
one-InPool = (omega arith, omega arith)

-- Only an address in the first block of the allocation frees it.
abbrev freed : MemBlkManager
freed = state_of (free_non_cached_memory 0x200200 one)

free_runs :
    (free_non_cached_memory 0x200400 one ≡ ok tt one)
    × (free_non_cached_memory 0x200200 one ≡ ok tt freed)
    × (freed.used_blocks ≡ 0)
unfolding allocate_non_cached_memory free_non_cached_memory free_blocks_at desc_index
    get_desc_addr_from_pool_addr get_required_blocks_from_bytes get_pool_addr_from_desc_addr
    create_descs link_blocks update
free_runs = (refl, refl, refl)

-- An address just below the pool is taken for its first block.
free_below : free_non_cached_memory 0x2001ff one ≡ free_non_cached_memory 0x200200 one
unfolding allocate_non_cached_memory free_non_cached_memory free_blocks_at desc_index
    get_desc_addr_from_pool_addr get_required_blocks_from_bytes get_pool_addr_from_desc_addr
    create_descs link_blocks update
free_below = refl

create_mem_pool_blk-IsValid_example :
    (m : MemBlkManager) × (create_mem_pool_blk 0x201000 raw ≡ some m)
    × IsValid m
    × (m.used_blocks ≡ 0)
    × (m.pool_entry + m.blocks * mem_blk_size ≤ 0x201000)
create_mem_pool_blk-IsValid_example =
    create_mem_pool_blk-IsValid 0x201000 raw (omega arith) (omega arith) (omega arith)

allocate-Allocated_example :
    Returns (λ a m'. IsValid m' × Allocated one 100 a m') (allocate_non_cached_memory 100 one)
allocate-Allocated_example = allocate-Allocated one 100 one-IsValid

free-Freed_example :
    Returns (λ _ m'. IsValid m' × Freed one 0x200200 m') (free_non_cached_memory 0x200200 one)
free-Freed_example = free-Freed one 0x200200 one-IsValid one-InPool

allocate-Fresh_example : Fresh one two 100 0x200600 0 2
allocate-Fresh_example = allocate-Fresh 100 0 2 one-IsValid one-Live allocate_two (omega arith)

free-free_example : free_non_cached_memory 0x200200 freed ≡ ok tt freed
free-free_example = free-free 0x200200 one-IsValid one-InPool free_runs.1

allocate_all_example :
    Returns (λ a m'. (a ≡ 0) × (m' ≡ pool)) (allocate_non_cached_memory 3400 pool)
unfolding get_required_blocks_from_bytes
allocate_all_example = allocate_all 3400 pool-IsValid (omega arith)
