-- ===== src/Process/Start/Tests.antt =====
-- The start of the process manager on a pool with a little less than 1 MB.
use mylysos.Base.{Option, none, some}
use mylysos.Memory.{MemBlkManager}
use mylysos.Memory.Init.{create_mem_pool_blk}
use mylysos.Memory.Samples.{raw}
use mylysos.Process.{Kernel}
use mylysos.Process.Created.{start}

abbrev large : Option MemBlkManager
large = create_mem_pool_blk 0x300000 raw

abbrev pool_or : Option MemBlkManager → MemBlkManager
pool_or o = elim o [ none ↦ start.pool | some m ↦ m ]

abbrev before : Kernel
before = record start { pool = pool_or large; process_count = 9; head_process = 5 }
