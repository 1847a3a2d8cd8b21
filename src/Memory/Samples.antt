-- ===== src/Memory/Samples.antt =====
-- A pool of seven blocks, for the tests.
use mathlib.Core.Path.{subst}
use mylysos.Base.{ℕ, ◌≡◌, refl, sym, ap, ◌∙◌, Option, none, some, arith}
use mylysos.Memory.{MemBlkDesc, MemBlkManager, get_required_blocks_from_bytes}
use mylysos.Memory.Valid.{IsValid}
use mylysos.Memory.Init.{
  create_mem_pool_blk, create_descs, fresh_manager, allocatable_blocks, pool_entry_address,
}
use mylysos.Memory.Init.Laws.{create_mem_pool_blk-IsValid}

-- What the descriptors hold before they are written.
abbrev pub raw : ℕ → MemBlkDesc
raw i = record { status = 0xcc; block_size = 7; next = none }

-- 2 MB and eight blocks of memory.
abbrev pub mem_size : ℕ
mem_size = 0x201000

abbrev pub pool : MemBlkManager
pool = fresh_manager 7 0x200200 (create_descs 7 raw)

create_runs : create_mem_pool_blk mem_size raw ≡ some pool
unfolding create_mem_pool_blk allocatable_blocks pool_entry_address get_required_blocks_from_bytes
create_runs = refl

pub pool-IsValid : IsValid pool
pool-IsValid =
    let (m, run, v, n, e) =
      create_mem_pool_blk-IsValid mem_size raw (omega arith) (omega arith) (omega arith) in
    let value : Option MemBlkManager → MemBlkManager = λ o. elim o [ none ↦ pool | some x ↦ x ] in
    subst IsValid (ap value (sym run ∙ create_runs)) v
