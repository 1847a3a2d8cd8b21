-- ===== src/Process/Start.antt =====
-- The start of the process manager in mylysos/process.c: PskInitializeProcessManager and
-- PspCreateSystemProcess, with the clock that PsShowTSWachdogClock
-- switches. The load of the task register (LTR) is left out.
pub mod Current
pub mod Valid
pub mod Threads
mod Tests
use mylysos.Base.{
  ℕ, ◌+◌, Bool, true, false, Option, none, some, update, if◌then◌else◌, Cmd, pure, ok, fault, hung,
  Run, ◌>>=◌, ◌>>◌,
}
use mylysos.Ring.{empty_queue}
use mylysos.Hal.{
  setup_task_link, write_tss_into_gdt, sizeof_tss, task_sw_seg, init_tss_seg, tmr_tss_seg,
  soft_ts_tss_seg,
}
use mylysos.Process.{
  Kernel, ThreadControlBlock, ready, running, set_thread, set_thread_status, tss_offset,
}
use mylysos.Process.Create.{
  Linkage, default_stack_size, create_process, create_thread, create_int_thread,
}

abbrev pub ts_watchdog_clock_pos : ℕ
ts_watchdog_clock_pos = 0xb8000 + 158

-- PsShowTSWachdogClock.
unfoldable pub show_ts_watchdog_clock : (show : Bool) → Cmd Kernel Bool
show_ts_watchdog_clock show k =
    let k = record k { show_clock = show } in
    ok true (if show then k else record k { memory = update k.memory ts_watchdog_clock_pos b' ' })

-- The return with FALSE where a structure is not created.
abbrev pub require : Cmd Kernel (Option ℕ) → (ℕ → Cmd Kernel Bool) → Cmd Kernel Bool
require create rest = create >>= λ handle. elim handle [ none ↦ pure false | some h ↦ rest h ]

-- HalWriteTssIntoGdt on the segment of a thread.
unfoldable pub write_tss : (handle segment : ℕ) → (set_busy : Bool) → Cmd Kernel (Unit {0})
write_tss handle segment set_busy k =
    ok tt (record k {
      gdt = write_tss_into_gdt (handle + tss_offset) sizeof_tss segment set_busy k.gdt;
    })

-- HalSetupTaskLink on the segment of the thread that the start becomes.
unfoldable pub link_init_thread : (handle : ℕ) → Cmd Kernel (Unit {0})
link_init_thread handle k = ok tt (
    set_thread handle
      (record (k.thread handle) { tss = setup_task_link (k.thread handle).tss task_sw_seg }) k)

unfoldable pub set_current_thread : (handle : ℕ) → Cmd Kernel (Unit {0})
set_current_thread handle k = ok tt (record k { current_thread = handle })

-- The variables that PskInitializeProcessManager sets.
unfoldable pub reset_variables : Kernel → Kernel
reset_variables k = record k {
  process_count = 0;
  next_process_id = 0;
  current_thread = 0;
  head_process = 0;
  process_cutting = empty_queue k.process_cutting.list;
  thread_cutting = empty_queue k.thread_cutting.list;
  show_clock = true;
  tick_count = 0;
}

module _ (env : Linkage) where
  -- The threads of the system process, in the order in which PspCreateSystemProcess makes them.
  unfoldable pub create_cutters : (process_handle : ℕ) → Cmd Kernel Bool
  create_cutters process =
      require (create_thread env process env.process_cutter_entry 0 default_stack_size false)
        λ cutter.
          set_thread_status cutter ready
          >> require (create_thread env process env.thread_cutter_entry 0 default_stack_size false)
              λ cutter. set_thread_status cutter ready >> pure true

  unfoldable pub create_idle_thread : (process_handle : ℕ) → Cmd Kernel Bool
  create_idle_thread process =
      require (create_thread env process env.idle_entry 0 default_stack_size false) λ idle.
        set_thread_status idle running
        >> write_tss idle task_sw_seg true
        >> set_current_thread idle
        >> create_cutters process

  unfoldable pub create_task_switch_thread : (process_handle : ℕ) → Cmd Kernel Bool
  create_task_switch_thread process =
      require (create_int_thread env process env.soft_task_sw_entry 0 default_stack_size)
        λ task_sw. write_tss task_sw soft_ts_tss_seg false >> create_idle_thread process

  unfoldable pub create_timer_thread : (process_handle : ℕ) → Cmd Kernel Bool
  create_timer_thread process =
      require (create_int_thread env process env.irq_system_timer_entry 0 default_stack_size)
        λ timer. write_tss timer tmr_tss_seg false >> create_task_switch_thread process

  unfoldable pub create_init_thread : (process_handle : ℕ) → Cmd Kernel Bool
  create_init_thread process =
      require (create_thread env process 0 0 default_stack_size false) λ init.
        link_init_thread init >> write_tss init init_tss_seg false >> create_timer_thread process

  -- PspCreateSystemProcess.
  unfoldable pub create_system_process : Cmd Kernel Bool
  create_system_process = require (create_process env) create_init_thread

  -- PskInitializeProcessManager.
  unfoldable pub initialize_process_manager : Cmd Kernel Bool
  initialize_process_manager k = create_system_process (reset_variables k)
