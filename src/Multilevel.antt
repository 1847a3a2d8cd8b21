-- ===== src/Multilevel.antt =====
-- The scheduler with three queues, Multilevel_Queue_Scheduling/process.c. What that file shares
-- with mylysos/process.c is its Kernel (Process); here are the queues, the priorities of the
-- threads and the choice of a queue at each tick. A node of a queue is at an address, 0 for NULL.
mod Tests
pub mod Quota
pub mod Queue
pub mod Search
use mylysos.Base.{
  ℕ, zero, suc, ◌+◌, ◌-◌, Bool, true, false, ◌&&◌, ◌||◌, not, Option, none, some, ltb, ◌==◌,
  if◌then◌else◌, update, u32, Run, ok, fault, hung, Cmd, pure, ◌>>=◌, ◌>>◌,
}
use mylysos.Ring.{empty_queue}
use mylysos.Hal.{write_tss_into_gdt, sizeof_tss, task_sw_seg}
use mylysos.Process.{
  Kernel, ThreadStatus, stop, terminated, ready, waiting, running, ThreadControlBlock, allocate,
  free_memory, set_thread, delete_thread, tss_offset,
}
use mylysos.Process.Schedule.{is_runnable, find_thread}

pub data SchedulePriority : Type 0 where
  priority_high : SchedulePriority
  priority_normal : SchedulePriority
  priority_low : SchedulePriority

pub record PriorityQueueData : Type 0 where
  pub thread : ℕ
  pub next : ℕ

pub record PriorityQueue : Type 0 where
  pub count : ℕ
  pub front : ℕ
  pub end : ℕ

-- The variables of process.c: those that it shares, what it adds, and the nodes of the queues.
pub record Scheduler : Type 0 where
  pub kernel : Kernel
  pub priority : ℕ → SchedulePriority
  pub node : ℕ → PriorityQueueData
  pub current_schedule_priority : SchedulePriority
  pub high_t : ℕ
  pub normal_t : ℕ
  pub low_t : ℕ
  pub high_q : PriorityQueue
  pub normal_q : PriorityQueue
  pub low_q : PriorityQueue

abbrev pub queue_of : SchedulePriority → Scheduler → PriorityQueue
queue_of priority_high s = s.high_q
queue_of priority_normal s = s.normal_q
queue_of priority_low s = s.low_q

abbrev pub set_queue : SchedulePriority → PriorityQueue → Scheduler → Scheduler
set_queue priority_high q s = record s { high_q = q }
set_queue priority_normal q s = record s { normal_q = q }
set_queue priority_low q s = record s { low_q = q }

abbrev pub sizeof_queue_data : ℕ
sizeof_queue_data = 8

-- A function of the shared part.
abbrev pub on_kernel : {A : Type 0} → Cmd Kernel A → Cmd Scheduler A
on_kernel m s = elim (m s.kernel) [
  | ok a k ↦ ok a (record s { kernel = k })
  | fault ↦ fault
  | hung ↦ hung
]

-- What PspPushScheduleData writes: the new node `a`, the link to it where the queue is not empty,
-- and the queue.
unfoldable pub linked_nodes :
    (ℕ → PriorityQueueData) → PriorityQueue → (a thread : ℕ) → ℕ → PriorityQueueData
linked_nodes node q a thread =
    let node = update node a (record { thread = thread; next = 0 }) in
    if q.front == 0 then node else update node q.end (record (node q.end) { next = a })

unfoldable pub linked_queue : PriorityQueue → (a : ℕ) → PriorityQueue
linked_queue q a = record {
  count = u32 (q.count + 1);
  front = if q.front == 0 then a else q.front;
  end = a;
}

unfoldable pub link_node : SchedulePriority → (a thread : ℕ) → Scheduler → Scheduler
link_node p a thread s =
    let q = queue_of p s in
    set_queue p (linked_queue q a) (record s { node = linked_nodes s.node q a thread })

-- PspPushScheduleData on the queue of a priority. The node is written without a test for NULL.
unfoldable pub push_schedule_data : SchedulePriority → (thread : ℕ) → Cmd Scheduler Bool
push_schedule_data p thread = on_kernel (allocate sizeof_queue_data) >>= λ a s.
    if a == 0 then fault else ok true (link_node p a thread s)

-- PspPopScheduleData; `none` for FALSE.
unfoldable pub pop_schedule_data : SchedulePriority → Cmd Scheduler (Option ℕ)
pop_schedule_data p s =
    let q = queue_of p s in
    if q.count == 0
    then ok none s
    else if q.front == 0
    then fault
    else let n = s.node q.front in
      (on_kernel (free_memory q.front) >>= λ _ s.
      ok (some n.thread) (set_queue p (record q { count = q.count - 1; front = n.next }) s))
        s

-- The loop of PspFindNextThreadScheduled over the front of its queue: threads that cannot run are
-- taken out.
unfoldable pub skip_stopped : (fuel : ℕ) → SchedulePriority → Cmd Scheduler (Unit {0})
skip_stopped zero p s = hung
skip_stopped (suc fuel) p s =
    let front = (queue_of p s).front in
    elim (not (front == 0) && not (is_runnable (s.kernel.thread (s.node front).thread).status)) [
      | false ↦ ok tt s
      | true ↦ (pop_schedule_data p >>= λ _. skip_stopped fuel p) s
    ]

-- The thread that the search begins with. If there is none in the queue, it is the current one,
-- also where that is terminated.
unfoldable pub pick_thread : SchedulePriority → Cmd Scheduler ℕ
pick_thread p s =
    if not ((queue_of p s).front == 0)
    then (pop_schedule_data p >>= λ popped. elim popped [ none ↦ λ _. fault | some t ↦ pure t ]) s
    else ok s.kernel.current_thread s

-- PspFindNextThreadScheduled. The part from $find_thread on is that of mylysos/process.c.
unfoldable pub find_next_thread_scheduled : (skips fuel rounds : ℕ) → Cmd Scheduler ℕ
find_next_thread_scheduled skips fuel rounds s =
    let k = s.kernel in
    let p = s.current_schedule_priority in
    if k.process_count == 0 || k.current_thread == 0 || k.head_process == 0
    then ok 0 s
    else (skip_stopped skips p >> pick_thread p >>= λ t s.
          elim (find_thread fuel rounds s.kernel t) [
            | none ↦ hung
            | some t ↦ ok t (record s { kernel = record s.kernel { current_thread = t } })
          ])
        s

-- What PspSetupTaskSWEnv does with the thread that was running.
unfoldable pub retire : (current : ℕ) → Cmd Scheduler (Unit {0})
retire current s =
    let k = s.kernel in
    if current == 0 then fault else elim (k.thread current).status [
      | terminated ↦
          if (k.thread current).auto_delete
          then (on_kernel (delete_thread current) >> pure tt) s
          else ok tt s
      | running ↦ (push_schedule_data (s.priority current) current >> pure tt) (record s {
        kernel = set_thread current (record (k.thread current) { status = ready }) k;
      })
      | stop ↦ ok tt s
      | ready ↦ ok tt s
      | waiting ↦ ok tt s
    ]

-- What it does with the one that is to run: the status is written to the other one.
unfoldable pub dispatch : (current next : ℕ) → Cmd Scheduler (Unit {0})
dispatch current next s =
    let k = s.kernel in
    if not (current == next) && not (next == 0)
    then ok tt (record s {
      kernel =
          set_thread current (record (k.thread current) { status = running })
            (record k {
              gdt = write_tss_into_gdt (next + tss_offset) sizeof_tss task_sw_seg true k.gdt;
            });
    })
    else ok tt s

-- PspSetupTaskSWEnv.
unfoldable pub setup_task_sw_env : (skips fuel rounds : ℕ) → Cmd Scheduler (Unit {0})
setup_task_sw_env skips fuel rounds s =
    let current = s.kernel.current_thread in
    (find_next_thread_scheduled skips fuel rounds >>= λ next.
    retire current >> dispatch current next)
      s

-- The choice of a queue in Psp_IRQ_SystemTimer, by the counts of the queues.
unfoldable pub choose_priority : Scheduler → Scheduler
choose_priority s =
    if ltb 0 s.high_q.count && ltb s.high_t 6
    then record s { high_t = s.high_t + 1; current_schedule_priority = priority_high }
    else if ltb 0 s.normal_q.count && ltb s.normal_t 3
    then record s { normal_t = s.normal_t + 1; current_schedule_priority = priority_normal }
    else if ltb 0 s.low_q.count && ltb s.low_t 1
    then record s { low_t = s.low_t + 1; current_schedule_priority = priority_low }
    else record s {
      high_t = 0;
      normal_t = 0;
      low_t = 0;
      current_schedule_priority =
          if not (s.high_q.count == 0)
          then priority_high
          else if not (s.normal_q.count == 0)
          then priority_normal
          else priority_low;
    }

-- One round of Psp_IRQ_SystemTimer, from an interrupt to IRETD.
unfoldable pub irq_system_timer : (skips fuel rounds : ℕ) → Cmd Scheduler (Unit {0})
irq_system_timer skips fuel rounds s = setup_task_sw_env skips fuel rounds (
    choose_priority
      (record s { kernel = record s.kernel { tick_count = u32 (s.kernel.tick_count + 1) } }))
