-- ===== src/Process/Cut.antt =====
-- The threads of mylysos/process.c that remove what has ended: a round of PspProcessCutterThread
-- and one of PspThreadCutterThread.
pub mod Thread
pub mod Unlink
pub mod Drop
pub mod Call
pub mod First
mod Tests
use mylysos.Base.{
  ℕ, zero, suc, ◌+◌, ◌-◌, Bool, true, false, Option, none, some, leb, ◌==◌, if◌then◌else◌, Run, ok,
  fault, hung, Cmd, pure, ◌>>=◌, ◌>>◌, sub32,
}
use mylysos.Ring.{pop_item}
use mylysos.Process.{
  Kernel, ProcessControlBlock, ThreadControlBlock, max_cutting_item, set_process, set_thread,
  free_memory,
}

-- The outcome of a search for a link: the structure whose link is changed, or the end of the list.
pub data Link : Type 0 where
  link_of : ℕ → Link
  missing : Link
  null_read : Link
  out_of_fuel : Link

-- The loops over `pt_prev` and `pt_cur`, which are links: `prev` and `cur` are what they hold. At
-- the start both are the head of the list.
unfoldable pub find_link : (fuel : ℕ) → (next : ℕ → ℕ) → (sought prev cur : ℕ) → Link
find_link zero next sought prev cur = out_of_fuel
find_link (suc fuel) next sought prev cur =
    let rest = find_link fuel next sought cur (next cur) in
    if cur == sought
    then link_of prev
    else if cur == 0
    then null_read
    else if next cur == 0
    then missing
    else rest

-- The thread is taken out of the list of its process, or is not there.
unfoldable pub unlink_thread : (fuel process_handle thread_handle : ℕ) → Cmd Kernel Bool
unlink_thread fuel process t k =
    let p = k.process process in
    if p.thread_count == 0
    then ok false k
    else if p.thread_count == 1
    then ok true (set_process process (record p { head_thread = 0 }) k)
    else elim (find_link fuel (λ i. (k.thread i).next_thread) t p.head_thread p.head_thread) [
      | link_of prev ↦
          ok true
            (set_thread prev (record (k.thread prev) { next_thread = (k.thread t).next_thread }) k)
      | missing ↦ ok false k
      | null_read ↦ fault
      | out_of_fuel ↦ hung
    ]

-- The counter of the process, and the memory of the thread. A stack below 2 MB is that of a user
-- program.
unfoldable pub drop_thread : (process_handle thread_handle : ℕ) → Cmd Kernel (Unit {0})
drop_thread process t k =
    let p = k.process process in
    let stack = (k.thread t).stack_base in
    ((if leb 0x00200000 stack then free_memory stack else pure tt) >> free_memory t)
      (set_process process (record p { thread_count = sub32 p.thread_count 1 }) k)

-- The critical section of PspThreadCutterThread.
unfoldable pub cut_thread : (fuel thread_handle : ℕ) → Cmd Kernel (Unit {0})
cut_thread fuel t k =
    if t == 0
    then fault
    else let process = (k.thread t).parent_process in
      if k.current_thread == 0
      then fault
      else if process == (k.thread k.current_thread).parent_process
      then ok tt k
      else if process == 0
      then fault
      else (unlink_thread fuel process t >>= λ unlinked.
            if unlinked then drop_thread process t else pure tt)
          k

-- A round of PspThreadCutterThread; false where there is nothing to cut and it gives up the
-- processor.
unfoldable pub thread_cutter_round : (fuel : ℕ) → Cmd Kernel Bool
thread_cutter_round fuel k =
    let (item, q) = pop_item max_cutting_item k.thread_cutting in
    elim item [
      | none ↦ ok false k
      | some t ↦ (cut_thread fuel t >> pure true) (record k { thread_cutting = q })
    ]

-- The loop that frees the threads of a process and their stacks. The links are read from structures
-- that have been freed.
unfoldable pub free_threads : (fuel thread_handle : ℕ) → Cmd Kernel (Unit {0})
free_threads zero t k = if t == 0 then ok tt k else hung
free_threads (suc fuel) t k =
    let next = (k.thread t).next_thread in
    elim (t == 0) [
      | true ↦ ok tt k
      | false ↦ (free_memory (k.thread t).stack_base >> (free_memory t >> free_threads fuel next)) k
    ]

-- The critical section of PspProcessCutterThread.
unfoldable pub cut_process : (fuel process_handle : ℕ) → Cmd Kernel (Unit {0})
cut_process fuel process k =
    if k.current_thread == 0
    then fault
    else if process == (k.thread k.current_thread).parent_process
    then ok tt k
    else elim (find_link fuel (λ i. (k.process i).next_process) process k.head_process
        k.head_process) [
          | missing ↦ ok tt k
          | null_read ↦ fault
          | out_of_fuel ↦ hung
          | link_of prev ↦
              if prev == 0
              then fault
              else (free_threads fuel (k.process process).head_thread >> free_memory process) (
                  set_process prev
                    (record (k.process prev) { next_process = (k.process process).next_process })
                    (record k { process_count = sub32 k.process_count 1 }))
        ]

-- A round of PspProcessCutterThread.
unfoldable pub process_cutter_round : (fuel : ℕ) → Cmd Kernel Bool
process_cutter_round fuel k =
    let (item, q) = pop_item max_cutting_item k.process_cutting in
    elim item [
      | none ↦ ok false k
      | some process ↦ (cut_process fuel process >> pure true) (record k { process_cutting = q })
    ]
