-- ===== src/Process.antt =====
-- The process manager, mylysos/process.c: its data, and the functions that keep its lists.
-- A handle is an address, 0 for NULL. Processes and threads are two stores, since an address
-- from the memory manager belongs to one structure only. A read through NULL is a fault.
pub mod Create
pub mod Layout
pub mod Schedule
pub mod Release
pub mod Cut
pub mod Start
pub mod Listing
pub mod Samples
pub mod Created
mod Tests
use mylysos.Base.{
  ℕ, zero, suc, ◌+◌, ◌≡◌, Bool, true, false, Option, none, some, ◌==◌, if◌then◌else◌, update, u32,
  Run, ok, fault, hung, Cmd, pure, ◌>>=◌, ◌>>◌,
}
use mylysos.Memory.{MemBlkManager, allocate_non_cached_memory, free_non_cached_memory}
use mylysos.Ring.{RingQueue, push_item}
use mylysos.Hal.{SegmentDesc, Tss32}

-- THREAD_STATUS of mylysos/mylysos.h.
pub data ThreadStatus : Type 0 where
  stop : ThreadStatus
  terminated : ThreadStatus
  ready : ThreadStatus
  waiting : ThreadStatus
  running : ThreadStatus

pub record ThreadControlBlock : Type 0 where
  pub parent_process : ℕ
  pub thread_id : ℕ
  pub thread_handle : ℕ
  pub status : ThreadStatus
  pub auto_delete : Bool
  pub next_thread : ℕ
  pub start_routine : ℕ
  pub start_context : ℕ
  pub stack_base : ℕ
  pub stack_size : ℕ
  pub tss : Tss32

pub record ProcessControlBlock : Type 0 where
  pub process_id : ℕ
  pub process_handle : ℕ
  pub next_process : ℕ
  pub thread_count : ℕ
  pub next_thread_id : ℕ
  pub head_thread : ℕ

-- The variables of process.c (m_ProcMgrBlk, m_ProcessCuttingList, m_ThreadCuttingList and so on),
-- and what its functions reach: the structures, the pool, the descriptors and the stacks.
pub record Kernel : Type 0 where
  pub process_count : ℕ
  pub next_process_id : ℕ
  pub current_thread : ℕ
  pub head_process : ℕ
  pub process_cutting : RingQueue ℕ
  pub thread_cutting : RingQueue ℕ
  pub show_clock : Bool
  pub tick_count : ℕ
  pub process : ℕ → ProcessControlBlock
  pub thread : ℕ → ThreadControlBlock
  pub pool : MemBlkManager
  pub gdt : ℕ → SegmentDesc
  pub memory : ℕ → ℕ

abbrev pub max_cutting_item : ℕ
max_cutting_item = 30

-- sizeof(PROCESS_CONTROL_BLOCK), sizeof(THREAD_CONTROL_BLOCK), and the offset of thread_tss32.
abbrev pub sizeof_process : ℕ
sizeof_process = 24

abbrev pub sizeof_thread : ℕ
sizeof_thread = 144

abbrev pub tss_offset : ℕ
tss_offset = 40

-- A call of MmAllocateNonCachedMemory.
unfoldable pub allocate : (bytes : ℕ) → Cmd Kernel ℕ
allocate bytes k = elim (allocate_non_cached_memory bytes k.pool) [
  | ok a pool ↦ ok a (record k { pool = pool })
  | fault ↦ fault
  | hung ↦ hung
]

-- A call of MmFreeNonCachedMemory.
unfoldable pub free_memory : (base : ℕ) → Cmd Kernel (Unit {0})
free_memory base k = elim (free_non_cached_memory base k.pool) [
  | ok u pool ↦ ok u (record k { pool = pool })
  | fault ↦ fault
  | hung ↦ hung
]

abbrev pub set_process : (handle : ℕ) → ProcessControlBlock → Kernel → Kernel
set_process handle p k = record k { process = update k.process handle p }

abbrev pub set_thread : (handle : ℕ) → ThreadControlBlock → Kernel → Kernel
set_thread handle t k = record k { thread = update k.thread handle t }

-- PsSetThreadStatus.
unfoldable pub set_thread_status : (handle : ℕ) → ThreadStatus → Cmd Kernel Bool
set_thread_status handle status k =
    if handle == 0
    then fault
    else ok true (set_thread handle (record (k.thread handle) { status = status }) k)

-- PsGetCurrentThread.
unfoldable pub get_current_thread : Cmd Kernel ℕ
get_current_thread k = ok k.current_thread k

-- PsGetThreadStatus and PsGetParentProcess.
unfoldable pub get_thread_status : (handle : ℕ) → Cmd Kernel ThreadStatus
get_thread_status handle k = if handle == 0 then fault else ok (k.thread handle).status k

unfoldable pub get_parent_process : (handle : ℕ) → Cmd Kernel ℕ
get_parent_process handle k = if handle == 0 then fault else ok (k.thread handle).parent_process k

-- PsDeleteThread.
unfoldable pub delete_thread : (handle : ℕ) → Cmd Kernel Bool
delete_thread handle k =
    let (result, q) = push_item max_cutting_item handle k.thread_cutting in
    ok result (record k { thread_cutting = q })

-- PspGetNextProcessID.
unfoldable pub get_next_process_id : Cmd Kernel ℕ
get_next_process_id k =
    ok k.next_process_id (record k { next_process_id = u32 (k.next_process_id + 1) })

-- PspGetNextThreadID.
unfoldable pub get_next_thread_id : (process_handle : ℕ) → Cmd Kernel ℕ
get_next_thread_id process_handle k =
    if process_handle == 0
    then fault
    else let p = k.process process_handle in
      ok p.next_thread_id
        (set_process process_handle (record p { next_thread_id = u32 (p.next_thread_id + 1) }) k)

-- The loops of PspAddNewProcess and PspAddNewThread: the last structure of the list that begins
-- with `i`.
unfoldable pub last_of : ℕ → (next : ℕ → ℕ) → ℕ → Option ℕ
last_of zero next i = none
last_of (suc fuel) next i = if next i == 0 then some i else last_of fuel next (next i)

-- PspAddNewProcess, on `fuel` rounds of its loop.
unfoldable pub add_new_process : (fuel process_handle : ℕ) → Cmd Kernel Bool
add_new_process fuel process_handle k =
    let counted = record k { process_count = u32 (k.process_count + 1) } in
    if k.head_process == 0
    then ok true (record counted { head_process = process_handle })
    else elim (last_of fuel (λ i. (k.process i).next_process) k.head_process) [
      | none ↦ hung
      | some i ↦
          ok true (set_process i (record (k.process i) { next_process = process_handle }) counted)
    ]

-- PspAddNewThread, on `fuel` rounds of its loop.
unfoldable pub add_new_thread : (fuel process_handle thread_handle : ℕ) → Cmd Kernel Bool
add_new_thread fuel process_handle thread_handle k =
    if process_handle == 0
    then fault
    else let p = k.process process_handle in
      let counted = record p { thread_count = u32 (p.thread_count + 1) } in
      if p.head_thread == 0
      then ok true (set_process process_handle (record counted { head_thread = thread_handle }) k)
      else elim (last_of fuel (λ i. (k.thread i).next_thread) p.head_thread) [
        | none ↦ hung
        | some i ↦ ok true (
            set_process process_handle counted
              (set_thread i (record (k.thread i) { next_thread = thread_handle }) k))
      ]
