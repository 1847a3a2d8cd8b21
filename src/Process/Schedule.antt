-- ===== src/Process/Schedule.antt =====
-- The scheduler of mylysos/process.c: PspFindNextThreadScheduled, PspSetupTaskSWEnv and the two
-- tasks that call it, the timer interrupt and the software task switch.
pub mod Order
pub mod RoundRobin
use mylysos.Base.{
  ℕ, zero, suc, ◌+◌, ◌<◌, Bool, true, false, ◌&&◌, ◌||◌, not, Option, none, some, ltb, leb, ◌==◌,
  if◌then◌else◌, update, u32, Run, ok, fault, hung, Cmd, pure, ◌>>=◌, ◌>>◌,
}
use mylysos.Hal.{write_tss_into_gdt, sizeof_tss, task_sw_seg}
use mylysos.Process.{
  Kernel, ThreadStatus, stop, terminated, ready, waiting, running, ThreadControlBlock, tss_offset,
  set_thread, delete_thread,
}

-- The threads that are scheduled: READY and RUNNING.
unfoldable pub is_runnable : ThreadStatus → Bool
is_runnable ready = true
is_runnable running = true
is_runnable stop = false
is_runnable terminated = false
is_runnable waiting = false

-- The loop at $find_process: the first thread of the next process that has one, from `process`
-- on.
unfoldable pub find_process : ℕ → Kernel → (process : ℕ) → Option ℕ
find_process zero k process = none
find_process (suc fuel) k process =
    let process = if process == 0 then k.head_process else process in
    let rest = find_process fuel k (k.process process).next_process in
    if (k.process process).head_thread == 0 then rest else some (k.process process).head_thread

-- One round at $find_thread: the thread after `thread`.
unfoldable pub thread_after : (fuel : ℕ) → Kernel → (thread : ℕ) → Option ℕ
thread_after fuel k thread =
    if (k.thread thread).next_thread == 0
    then find_process fuel k (k.process (k.thread thread).parent_process).next_process
    else some (k.thread thread).next_thread

-- The loop at $find_thread, on `rounds` rounds, each with `fuel` for the loop inside.
unfoldable pub find_thread : (fuel rounds : ℕ) → Kernel → (thread : ℕ) → Option ℕ
find_thread fuel zero k thread = none
find_thread fuel (suc rounds) k thread = elim (thread_after fuel k thread) [
  | none ↦ none
  | some t ↦ elim (is_runnable (k.thread t).status) [
    | true ↦ some t
    | false ↦ find_thread fuel rounds k t
  ]
]

-- PspFindNextThreadScheduled; the result 0 is NULL.
unfoldable pub find_next_thread_scheduled : (fuel rounds : ℕ) → Cmd Kernel ℕ
find_next_thread_scheduled fuel rounds k =
    if k.process_count == 0 || k.current_thread == 0 || k.head_process == 0
    then ok 0 k
    else elim (find_thread fuel rounds k k.current_thread) [
      | none ↦ hung
      | some t ↦ ok t (record k { current_thread = t })
    ]

-- What PspSetupTaskSWEnv does with the thread that was running.
unfoldable pub retire : (current : ℕ) → Cmd Kernel (Unit {0})
retire current k = if current == 0 then fault else elim (k.thread current).status [
  | terminated ↦
      if (k.thread current).auto_delete then (delete_thread current >> pure tt) k else ok tt k
  | running ↦ ok tt (set_thread current (record (k.thread current) { status = ready }) k)
  | stop ↦ ok tt k
  | ready ↦ ok tt k
  | waiting ↦ ok tt k
]

-- What it does with the one that is to run.
unfoldable pub dispatch : (current next : ℕ) → Cmd Kernel (Unit {0})
dispatch current next k =
    if not (current == next) && not (next == 0)
    then ok tt (
        set_thread next (record (k.thread next) { status = running })
          (record k {
            gdt = write_tss_into_gdt (next + tss_offset) sizeof_tss task_sw_seg true k.gdt;
          }))
    else ok tt k

-- PspSetupTaskSWEnv.
unfoldable pub setup_task_sw_env : (fuel rounds : ℕ) → Cmd Kernel (Unit {0})
setup_task_sw_env fuel rounds k =
    (find_next_thread_scheduled fuel rounds >>= λ next.
    retire k.current_thread >> dispatch k.current_thread next)
      k

-- One round of Psp_IRQ_SystemTimer, from an interrupt to IRETD.
unfoldable pub irq_system_timer : (fuel rounds : ℕ) → Cmd Kernel (Unit {0})
irq_system_timer fuel rounds k =
    setup_task_sw_env fuel rounds (record k { tick_count = u32 (k.tick_count + 1) })

-- One round of PspSoftTaskSW, with its variables `cnt` and `pos`; the last result is the index of
-- the character that it draws, if it draws one.
unfoldable pub soft_task_sw : (fuel rounds cnt pos : ℕ) → Cmd Kernel (ℕ × ℕ × Option ℕ)
soft_task_sw fuel rounds cnt pos k =
    let turned = if ltb 7 (pos + 1) then 0 else pos + 1 in
    (setup_task_sw_env fuel rounds
        >> pure (
            if leb 50 cnt
            then (0, turned, if k.show_clock then some turned else none)
            else (cnt + 1, pos, none)))
      k
