-- ===== src/Process/Samples.antt =====
-- A kernel with a few processes, for the tests.
use mylysos.Base.{ℕ, true, false, ◌==◌, if◌then◌else◌}
use mylysos.Memory.Samples.{pool}
use mylysos.Ring.{empty_queue}
use mylysos.Hal.{SegmentDesc, Tss32}
use mylysos.Process.{
  Kernel, ProcessControlBlock, ThreadControlBlock, ThreadStatus, stop, ready, waiting, running,
}

abbrev pub blank_tss : Tss32
blank_tss = record {
  prev_task_link = 0;
  esp0 = 0;
  ss0 = 0;
  eip = 0;
  eflags = 0;
  esp = 0;
  es = 0;
  cs = 0;
  ss = 0;
  ds = 0;
  fs = 0;
  gs = 0;
}

abbrev pub blank_desc : SegmentDesc
blank_desc = record {
  limit_1 = 0;
  limit_2 = 0;
  base_1 = 0;
  base_2 = 0;
  base_3 = 0;
  kind = 0;
  glimit_3 = 0;
  base_4 = 0;
}

abbrev pub thread_of : (parent next : ℕ) → ThreadStatus → ThreadControlBlock
thread_of parent next s = record {
  parent_process = parent;
  thread_id = 0;
  thread_handle = 0;
  status = s;
  auto_delete = false;
  next_thread = next;
  start_routine = 0;
  start_context = 0;
  stack_base = 0;
  stack_size = 0;
  tss = blank_tss;
}

abbrev pub process_of : (next head : ℕ) → ProcessControlBlock
process_of next head = record {
  process_id = 0;
  process_handle = 0;
  next_process = next;
  thread_count = 2;
  next_thread_id = 2;
  head_thread = head;
}

-- The processes 1, 2 and 3: 1 has the threads 10 and 11, 3 has the thread 30, which waits.
abbrev pub three : Kernel
three = record {
  process_count = 3;
  next_process_id = 3;
  current_thread = 11;
  head_process = 1;
  process_cutting = empty_queue (λ i. 0);
  thread_cutting = empty_queue (λ i. 0);
  show_clock = true;
  tick_count = 0;
  process = λ p.
      if p == 1
      then process_of 2 10
      else if p == 2
      then process_of 3 0
      else if p == 3
      then process_of 0 30
      else process_of 0 0;
  thread = λ t.
      if t == 10
      then thread_of 1 11 ready
      else if t == 11
      then thread_of 1 0 running
      else if t == 30
      then thread_of 3 0 waiting
      else thread_of 1 0 stop;
  pool = pool;
  gdt = λ i. blank_desc;
  memory = λ i. 0;
}
