-- ===== src/Process/Create.antt =====
-- The functions of mylysos/process.c that create processes and threads. The addresses that the
-- linker gives, the flags that PUSHFD reads and the bound for the loops over the lists are
-- parameters. The handle that is written through the OUT parameter is `some`, FALSE is `none`.
pub mod Valid
use mylysos.Base.{
  ℕ, ◌+◌, ◌*◌, Bool, true, false, Option, none, some, ◌==◌, if◌then◌else◌, update, Run, ok, fault,
  hung, Cmd, pure, ◌>>=◌, ◌>>◌,
}
use mylysos.Hal.{
  Tss32, setup_tss, setup_task_link, change_tss_busy_bit, write_tss_into_gdt, task_sw_seg,
  init_tss_seg, tmr_tss_seg, soft_ts_tss_seg, sizeof_tss,
}
use mylysos.Process.{
  Kernel, ProcessControlBlock, ThreadControlBlock, ThreadStatus, stop, ready, running,
  sizeof_process, sizeof_thread, tss_offset, allocate, set_process, set_thread, set_thread_status,
  get_next_process_id, get_next_thread_id, add_new_process, add_new_thread,
}

pub record Linkage : Type 0 where
  pub flags : ℕ
  pub syscall_stack_ptr : ℕ
  pub syscall_stack_size : ℕ
  pub task_entry_point : ℕ
  pub irq_system_timer_entry : ℕ
  pub soft_task_sw_entry : ℕ
  pub idle_entry : ℕ
  pub process_cutter_entry : ℕ
  pub thread_cutter_entry : ℕ
  pub fuel : ℕ

abbrev pub default_stack_size : ℕ
default_stack_size = 64 * 1024

abbrev pub user_app_entry_point : ℕ
user_app_entry_point = 0x00101000

abbrev pub user_app_stack_ptr : ℕ
user_app_stack_ptr = 0x001f0000

abbrev pub user_app_stack_size : ℕ
user_app_stack_size = 1024 * 64

-- What PsCreateProcess writes into the new structure.
abbrev pub new_process : (id handle : ℕ) → ProcessControlBlock
new_process id handle = record {
  process_id = id;
  process_handle = handle;
  next_process = 0;
  thread_count = 0;
  next_thread_id = 0;
  head_thread = 0;
}

-- What PsCreateThread, PsCreateIntThread and PsCreateUserThread write into the new structure.
abbrev pub new_thread :
    (parent id handle start_routine start_context stack_base stack_size : ℕ)
    → (auto_delete : Bool) → Tss32
    → ThreadControlBlock
new_thread parent id handle routine context stack size auto tss = record {
  parent_process = parent;
  thread_id = id;
  thread_handle = handle;
  status = stop;
  auto_delete = auto;
  next_thread = 0;
  start_routine = routine;
  start_context = context;
  stack_base = stack;
  stack_size = size;
  tss = tss;
}

unfoldable pub write_process : (handle : ℕ) → ProcessControlBlock → Cmd Kernel (Unit {0})
write_process handle p k = ok tt (set_process handle p k)

unfoldable pub write_thread : (handle : ℕ) → ThreadControlBlock → Cmd Kernel (Unit {0})
write_thread handle t k = ok tt (set_thread handle t k)

module _ (env : Linkage) where
  -- PsCreateProcess.
  unfoldable pub create_process : Cmd Kernel (Option ℕ)
  create_process = allocate sizeof_process >>= λ handle.
      if handle == 0
      then pure none
      else (get_next_process_id >>= λ id.
          write_process handle (new_process id handle)
          >> add_new_process env.fuel handle
          >>= λ added. pure (if added then some handle else none))

  -- HalSetupTSS on the segment of a thread, with its HalChangeTssBusyBit.
  unfoldable pub set_up_thread :
      (handle entry_point stack_base stack_size : ℕ) → Cmd Kernel (Unit {0})
  set_up_thread handle entry_point stack_base stack_size k =
      let (tss, memory) =
        setup_tss env.flags env.syscall_stack_ptr env.syscall_stack_size true entry_point stack_base
          stack_size k.memory in
      ok tt (
        set_thread handle (record (k.thread handle) { tss = tss })
          (record k { memory = memory; gdt = change_tss_busy_bit task_sw_seg true k.gdt }))

  -- The part that the three functions share, from the identifier on. `entry_point` is what the
  -- task begins with. The segment of the structure holds what was there before.
  unfoldable pub enter_thread :
      (handle process_handle entry_point start_routine start_context stack_base stack_size : ℕ)
      → (auto_delete : Bool) → Cmd Kernel (Option ℕ)
  enter_thread handle process entry routine context stack size auto k =
      (get_next_thread_id process >>= λ id.
      write_thread handle
        (new_thread process id handle routine context stack size auto (k.thread handle).tss)
      >> add_new_thread env.fuel process handle
      >>= λ added.
          if added then set_up_thread handle entry stack size >> pure (some handle) else pure none)
        k

  -- PsCreateThread, with PspTaskEntryPoint as the entry point, and PsCreateIntThread, with the
  -- routine itself.
  unfoldable pub create_stacked_thread :
      (process_handle entry_point start_routine start_context stack_size : ℕ)
      → (auto_delete : Bool) → Cmd Kernel (Option ℕ)
  create_stacked_thread process entry routine context size auto =
      allocate sizeof_thread >>= λ handle.
      if handle == 0
      then pure none
      else (allocate size >>= λ stack.
          if stack == 0
          then pure none
          else enter_thread handle process entry routine context stack size auto)

  abbrev pub create_thread :
      (process_handle start_routine start_context stack_size : ℕ)
      → (auto_delete : Bool) → Cmd Kernel (Option ℕ)
  create_thread process routine context size auto =
      create_stacked_thread process env.task_entry_point routine context size auto

  abbrev pub create_int_thread :
      (process_handle start_routine start_context stack_size : ℕ) → Cmd Kernel (Option ℕ)
  create_int_thread process routine context size =
      create_stacked_thread process routine routine context size false

  -- PsCreateUserThread.
  unfoldable pub create_user_thread : (process_handle start_context : ℕ) → Cmd Kernel (Option ℕ)
  create_user_thread process context = allocate sizeof_thread >>= λ handle.
      if handle == 0
      then pure none
      else enter_thread handle process user_app_entry_point user_app_entry_point context
          user_app_stack_ptr user_app_stack_size false
