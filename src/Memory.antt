-- ===== src/Memory.antt =====
-- The memory manager, mylysos/mmanager.c: a pool of 512-byte blocks, one descriptor for each.
-- A descriptor is named by its index in the array at `pDescEntry`; the two conversions work on
-- addresses. ENTER_CRITICAL_SECTION and EXIT_CRITICAL_SECTION bracket each function's accesses, so
-- that a call is one step. `blocks`, `used_blocks` and `free_blocks` are the fields nBlocks,
-- nUsedBlocks and nFreeBlocks.
pub mod Table
pub mod Search
pub mod Valid
pub mod Alloc
pub mod Free
pub mod Laws
pub mod Apart
pub mod Init
pub mod Samples
mod Tests
use mylysos.Base.{
  ℕ, zero, suc, ◌+◌, ◌-◌, ◌*◌, ◌/◌, ◌%◌, ◌<◌, Bool, true, false, ◌&&◌, Option, none, some, ltb, leb,
  ◌==◌, if◌then◌else◌, update, u32, sub32, Run, ok, fault, hung, Cmd,
}

abbrev pub memory_pool_start_address : ℕ
memory_pool_start_address = 0x200000

abbrev pub mem_blk_size : ℕ
mem_blk_size = 512

abbrev pub mem_blk_free : ℕ
mem_blk_free = 0

abbrev pub mem_blk_used : ℕ
mem_blk_used = 1

-- sizeof(MEM_BLK_DESC): three 32-bit fields.
abbrev pub sizeof_desc : ℕ
sizeof_desc = 12

-- `next` is the index of the descriptor that pNext points at, `none` for NULL.
pub record MemBlkDesc : Type 0 where
  pub status : ℕ
  pub block_size : ℕ
  pub next : Option ℕ

pub record MemBlkManager : Type 0 where
  pub blocks : ℕ
  pub used_blocks : ℕ
  pub free_blocks : ℕ
  pub desc_entry : ℕ
  pub pool_entry : ℕ
  pub desc : ℕ → MemBlkDesc

unfoldable pub get_required_blocks_from_bytes : ℕ → ℕ
get_required_blocks_from_bytes bytes =
    let blocks = bytes / mem_blk_size in if bytes % mem_blk_size == 0 then blocks else blocks + 1

-- `pDescAddr - pDescEntry` is a difference of indices.
unfoldable pub get_pool_addr_from_desc_addr : MemBlkManager → ℕ → ℕ
get_pool_addr_from_desc_addr m desc_addr =
    m.pool_entry + (desc_addr - m.desc_entry) / sizeof_desc * mem_blk_size

-- The offset is a signed integer and its division truncates towards 0, so an address below the
-- pool is treated apart. Addresses are below 2 ^ 31.
pub get_desc_addr_from_pool_addr : MemBlkManager → ℕ → ℕ
get_desc_addr_from_pool_addr m pool_addr =
    if leb m.pool_entry pool_addr
    then m.desc_entry + (pool_addr - m.pool_entry) / mem_blk_size * sizeof_desc
    else m.desc_entry - (m.pool_entry - pool_addr) / mem_blk_size * sizeof_desc

-- The address of the descriptor with index `i`.
abbrev pub desc_addr : MemBlkManager → ℕ → ℕ
desc_addr m i = m.desc_entry + i * sizeof_desc

-- The outcome of the search loop of MmAllocateNonCachedMemory.
pub data SearchResult : Type 0 where
  found : ℕ → SearchResult
  not_found : SearchResult
  out_of_fuel : SearchResult

-- The search for `required` free blocks in a row, with `cur_blocks` of them seen from `start` on.
unfoldable pub search_blocks :
    ℕ → (ℕ → MemBlkDesc) → (required start cur cur_blocks : ℕ) → SearchResult
search_blocks zero d required start cur cur_blocks = out_of_fuel
search_blocks (suc fuel) d required start cur cur_blocks = elim (ltb cur_blocks required) [
  | false ↦ found start
  | true ↦ elim ((d cur).next) [
    | none ↦ not_found
    | some next ↦ elim ((d cur).status == mem_blk_used) [
      | true ↦ search_blocks fuel d required (cur + (d cur).block_size) (cur + (d cur).block_size) 0
      | false ↦ search_blocks fuel d required start next (cur_blocks + 1)
    ]
  ]
]

-- A loop that changes `rounds` descriptors along their pNext pointers: `none` where it follows a
-- null pointer.
unfoldable pub for_blocks :
    (MemBlkDesc → MemBlkDesc) → ℕ → Option ℕ → (ℕ → MemBlkDesc) → Option (ℕ → MemBlkDesc)
for_blocks change zero cur d = some d
for_blocks change (suc rounds) none d = none
for_blocks change (suc rounds) (some i) d =
    for_blocks change rounds (d i).next (update d i (change (d i)))

-- The marking loop of MmAllocateNonCachedMemory.
abbrev pub set_used : MemBlkDesc → MemBlkDesc
set_used d = record d { status = mem_blk_used }

-- The body of the loop of MmFreeNonCachedMemory.
abbrev pub set_free : MemBlkDesc → MemBlkDesc
set_free d = record d { status = mem_blk_free; block_size = 0 }

-- The rest of MmAllocateNonCachedMemory, from the first block found on.
unfoldable pub take_blocks : ℕ → ℕ → Cmd MemBlkManager ℕ
take_blocks required start m = elim (for_blocks set_used required (some start) m.desc) [
  | none ↦ fault
  | some d ↦ ok (get_pool_addr_from_desc_addr m (desc_addr m start)) (record m {
    desc = update d start (record (d start) { block_size = required });
    free_blocks = sub32 m.free_blocks required;
    used_blocks = u32 (m.used_blocks + required);
  })
]

-- The rest of MmAllocateNonCachedMemory, after the search.
unfoldable pub finish_allocation : ℕ → SearchResult → Cmd MemBlkManager ℕ
finish_allocation required (found start) m = take_blocks required start m
finish_allocation required not_found m = ok 0 m
finish_allocation required out_of_fuel m = hung

-- MmAllocateNonCachedMemory; the result 0 is NULL. Each round of the search goes on to a later
-- descriptor, so that a round for each block is enough.
unfoldable pub allocate_non_cached_memory : ℕ → Cmd MemBlkManager ℕ
unfolding finish_allocation take_blocks search_blocks for_blocks
allocate_non_cached_memory bytes m =
    if bytes == 0
    then ok 0 m
    else let required = get_required_blocks_from_bytes bytes in
      if ltb m.free_blocks required
      then ok 0 m
      else finish_allocation required (search_blocks (m.blocks + 1) m.desc required 0 0 0) m

-- The index of the descriptor at an address, if one of the array stands there.
pub desc_index : MemBlkManager → ℕ → Option ℕ
desc_index m addr =
    let i = (addr - m.desc_entry) / sizeof_desc in
    if leb m.desc_entry addr && ltb i m.blocks then some i else none

-- The rest of MmFreeNonCachedMemory, from the descriptor on.
pub free_blocks_at : ℕ → Cmd MemBlkManager (Unit {0})
free_blocks_at i m =
    if (m.desc i).status == mem_blk_used
    then elim (for_blocks set_free (m.desc i).block_size (some i) m.desc) [
      | none ↦ fault
      | some d ↦ ok tt (record m {
        desc = d;
        free_blocks = u32 (m.free_blocks + (m.desc i).block_size);
        used_blocks = sub32 m.used_blocks (m.desc i).block_size;
      })
    ]
    else ok tt m

-- MmFreeNonCachedMemory; a descriptor address outside the array is a fault.
pub free_non_cached_memory : ℕ → Cmd MemBlkManager (Unit {0})
free_non_cached_memory base m =
    if base == 0 then ok tt m else elim (desc_index m (get_desc_addr_from_pool_addr m base)) [
      | none ↦ fault
      | some i ↦ free_blocks_at i m
    ]

pub get_used_memory_blocks : MemBlkManager → ℕ
get_used_memory_blocks m = m.used_blocks

pub get_memory_block_size : ℕ
get_memory_block_size = mem_blk_size
