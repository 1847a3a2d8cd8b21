-- ===== src/Memory/Init.antt =====
-- MmkInitializeMemoryManager of mylysos/mmanager.c: the probe for the size of the memory and the
-- layout of the pool. Which words of the memory keep what is written to them is the machine's, and
-- so a parameter; so is what the descriptors hold before they are written.
pub mod Probe
pub mod Laws
use mylysos.Base.{
  ℕ, zero, suc, ◌+◌, ◌-◌, ◌*◌, ◌≤◌, Bool, true, false, Option, none, some, ltb, leb, if◌then◌else◌,
  update, u32, sub32, not,
}
use mylysos.Memory.{
  MemBlkDesc, MemBlkManager, memory_pool_start_address, mem_blk_size, mem_blk_free, sizeof_desc,
  get_required_blocks_from_bytes,
}

-- `pAddr += (4*1024*1024)` on a pointer to 4-byte words.
abbrev pub probe_step : ℕ
probe_step = 4 * 1024 * 1024 * 4

-- The loop of MmpCheckMemorySize; `none` where it goes on for ever.
unfoldable pub probe : (present : ℕ → Bool) → ℕ → ℕ → Option ℕ
probe present zero addr = none
probe present (suc fuel) addr = elim (present (u32 (addr + probe_step))) [
  | true ↦ probe present fuel (u32 (addr + probe_step))
  | false ↦ some (u32 (addr + probe_step))
]

-- The value of m_MemSize and the result. After 256 rounds the address is back at 0.
unfoldable pub check_memory_size : (present : ℕ → Bool) → Option (ℕ × Bool)
check_memory_size present = elim (probe present 256 0) [
  | none ↦ none
  | some size ↦ some (size, not (ltb size (memory_pool_start_address + 1 * 1024 * 1024)))
]

-- The loop of MmpCreateMemPoolBlk over the descriptors from `i` on, with the last `pCur`.
unfoldable pub link_blocks : ℕ → (i prev : ℕ) → (ℕ → MemBlkDesc) → ℕ × (ℕ → MemBlkDesc)
link_blocks zero i prev d = (prev, d)
link_blocks (suc rounds) i prev d =
    let d = update d i (record (d i) { status = mem_blk_free; block_size = 0 }) in
    link_blocks rounds (i + 1) i (update d prev (record (d prev) { next = some i }))

-- The table of `blocks` descriptors.
unfoldable pub create_descs : ℕ → (ℕ → MemBlkDesc) → ℕ → MemBlkDesc
create_descs blocks raw =
    let d = update raw 0 (record (raw 0) { status = mem_blk_free }) in
    let (cur, d) = link_blocks (blocks - 1) 1 0 d in update d cur (record (d cur) { next = none })

-- `dwBlksOfAllocatableMem`: the blocks of the usable memory less those that its descriptors take.
unfoldable pub allocatable_blocks : (mem_size : ℕ) → ℕ
allocatable_blocks mem_size =
    let usable = get_required_blocks_from_bytes (sub32 mem_size memory_pool_start_address) in
    sub32 usable (get_required_blocks_from_bytes (u32 (usable * sizeof_desc)))

-- `pPoolEntry`, behind the descriptors.
unfoldable pub pool_entry_address : (allocatable : ℕ) → ℕ
pool_entry_address allocatable =
    let descs = get_required_blocks_from_bytes (u32 (allocatable * sizeof_desc)) in
    u32 (memory_pool_start_address + descs * mem_blk_size)

-- The manager with all its blocks free.
abbrev pub fresh_manager : ℕ → ℕ → (ℕ → MemBlkDesc) → MemBlkManager
fresh_manager blocks pool_entry d = record {
  blocks = blocks;
  used_blocks = 0;
  free_blocks = blocks;
  desc_entry = memory_pool_start_address;
  pool_entry = pool_entry;
  desc = d;
}

-- MmpCreateMemPoolBlk; `none` where the loop does not run and `pCur` is not set.
unfoldable pub create_mem_pool_blk : (mem_size : ℕ) → (ℕ → MemBlkDesc) → Option MemBlkManager
create_mem_pool_blk mem_size raw =
    let blocks = allocatable_blocks mem_size in
    if ltb blocks 2
    then none
    else some (fresh_manager blocks (pool_entry_address blocks) (create_descs blocks raw))

-- MmkInitializeMemoryManager: `none` for a fault or a loop that does not end, `some none` for the
-- result FALSE.
unfoldable pub initialize_memory_manager :
    (present : ℕ → Bool) → (ℕ → MemBlkDesc) → Option (Option MemBlkManager)
initialize_memory_manager present raw = elim (check_memory_size present) [
  | none ↦ none
  | some (size, big_enough) ↦ elim big_enough [
    | false ↦ some none
    | true ↦ elim (create_mem_pool_blk size raw) [ none ↦ none | some m ↦ some (some m) ]
  ]
]
