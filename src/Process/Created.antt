-- ===== src/Process/Created.antt =====
-- Kernels built by the functions that create processes and threads, for the tests.
use mathlib.Core.Path.{subst}
use mylysos.Base.{
  List, ◌++◌, ℕ, ◌≡◌, ◌≢◌, refl, sym, ap, Option, none, some, [], ◌∷◌, arith, update, ok, hung,
  fault, Run, Returns,
}
use mylysos.Memory.{
  allocate_non_cached_memory, get_required_blocks_from_bytes, get_pool_addr_from_desc_addr,
  search_blocks, for_blocks, take_blocks, finish_allocation,
}
use mylysos.Memory.Init.{create_descs, link_blocks}
use mylysos.Memory.Samples.{pool-IsValid}
use mylysos.Process.Samples.{three}
use mylysos.Process.{
  get_next_thread_id, last_of, Kernel, add_new_thread, add_new_process, allocate,
  get_next_process_id,
}
use mylysos.Process.Layout.{threads_of, handles_of, Processes}
use mylysos.Process.Layout.Every.{Every}
use mylysos.Process.Create.{
  enter_thread, write_thread, set_up_thread, Linkage, write_process, create_process,
  create_user_thread,
}
use mylysos.Process.Create.Valid.{KernelValid, Distinct}
use mylysos.Process.Create.Valid.NewProcess.{
  ProcessCreated, refused, created, create_process-ProcessCreated,
}
use mylysos.Process.Create.Valid.NewThread.{ThreadCreated}
use mylysos.Process.Create.Valid.Calls.{create_user_thread-ThreadCreated}

-- A kernel without processes, on the pool of seven blocks.
abbrev pub start : Kernel
start = record three {
  process_count = 0;
  next_process_id = 0;
  current_thread = 0;
  head_process = 0;
}

pub start-KernelValid : KernelValid start []
unfolding Processes Distinct Every handles_of threads_of
start-KernelValid = record {
  pool_valid = pool-IsValid;
  laid_out = refl;
  distinct = tt;
  live_processes = tt;
  live_threads = tt;
}

abbrev pub env : Linkage
env = record {
  flags = 2;
  syscall_stack_ptr = 0x1000;
  syscall_stack_size = 0x10000;
  task_entry_point = 0x2000;
  irq_system_timer_entry = 0x3000;
  soft_task_sw_entry = 0x4000;
  idle_entry = 0x5000;
  process_cutter_entry = 0x6000;
  thread_cutter_entry = 0x7000;
  fuel = 8;
}

abbrev pub option_or : ℕ → Option ℕ → ℕ
option_or d o = elim o [ none ↦ d | some x ↦ x ]

KernelValid-of_created :
    {k k' : Kernel} {p : ℕ}
    → p ≢ 0
    → ProcessCreated env k [] (some p) k'
    → KernelValid k' ((p, []) ∷ [])
KernelValid-of_created {k} {k'} {p} n (refused e v) = absurd (n (ap (option_or 0) e))
KernelValid-of_created {k} {k'} {p} n (created q e v i j) =
    subst (λ x. KernelValid k' ((x, []) ∷ [])) (sym (ap (option_or 0) e)) v

-- The first process, in the first block of the pool.
abbrev pub after_process : Run Kernel (Option ℕ) → Kernel
after_process r = elim r [ ok a k ↦ k | fault ↦ start | hung ↦ start ]

abbrev pub one_process : Kernel
one_process = after_process (create_process env start)

pub process_created : create_process env start ≡ ok (some 0x200200) one_process
unfolding create_process allocate get_next_process_id write_process add_new_process
    allocate_non_cached_memory get_required_blocks_from_bytes get_pool_addr_from_desc_addr
    create_descs link_blocks update search_blocks for_blocks take_blocks finish_allocation
process_created = refl

pub one_process-KernelValid : KernelValid one_process ((0x200200, []) ∷ [])
one_process-KernelValid =
    KernelValid-of_created (λ e. omega (arith, e))
      (subst (Returns (ProcessCreated env start [])) process_created
        (create_process-ProcessCreated env start [] start-KernelValid (omega arith)))

-- A thread of the process, and the layout with it.
KernelValid-of_thread :
    {k k' : Kernel} {p t : ℕ} (ts : List ℕ)
    → ThreadCreated env p [] [] ts k (some t) k'
    → KernelValid k' ((p, ts ++ t ∷ []) ∷ [])
KernelValid-of_thread {k} {k'} {p} {t} ts (ThreadCreated.refused e v) = cc
KernelValid-of_thread {k} {k'} {p} {t} ts (ThreadCreated.created q e v) =
    subst (λ x. KernelValid k' ((p, ts ++ x ∷ []) ∷ [])) (sym (ap (option_or 0) e)) v.valid

-- Two threads of the process that run in a user program's stack.
abbrev pub one_thread : Kernel
one_thread = after_process (create_user_thread env 0x200200 0 one_process)

first_thread : create_user_thread env 0x200200 0 one_process ≡ ok (some 0x200400) one_thread
unfolding create_user_thread allocate allocate_non_cached_memory create_process
    get_required_blocks_from_bytes create_descs update link_blocks get_pool_addr_from_desc_addr
    get_next_process_id write_process add_new_process enter_thread get_next_thread_id write_thread
    add_new_thread set_up_thread last_of search_blocks for_blocks take_blocks finish_allocation
first_thread = refl

one_thread-KernelValid : KernelValid one_thread ((0x200200, 0x200400 ∷ []) ∷ [])
one_thread-KernelValid = KernelValid-of_thread [] (
    subst (Returns (ThreadCreated env 0x200200 [] [] [] one_process)) first_thread (
      create_user_thread-ThreadCreated env 0x200200 [] [] [] one_process 0 one_process-KernelValid
        (omega arith)))

pub two_threads : Kernel
two_threads = after_process (create_user_thread env 0x200200 0 one_thread)

second_thread : create_user_thread env 0x200200 0 one_thread ≡ ok (some 0x200600) two_threads
unfolding two_threads create_user_thread allocate allocate_non_cached_memory create_process
    get_required_blocks_from_bytes create_descs update link_blocks get_pool_addr_from_desc_addr
    get_next_process_id write_process add_new_process enter_thread get_next_thread_id write_thread
    add_new_thread set_up_thread last_of search_blocks for_blocks take_blocks finish_allocation
second_thread = refl

pub two_threads-KernelValid : KernelValid two_threads ((0x200200, 0x200400 ∷ 0x200600 ∷ []) ∷ [])
two_threads-KernelValid = KernelValid-of_thread (0x200400 ∷ []) (
    subst (Returns (ThreadCreated env 0x200200 [] [] (0x200400 ∷ []) one_thread)) second_thread (
      create_user_thread-ThreadCreated env 0x200200 [] [] (0x200400 ∷ []) one_thread 0
        one_thread-KernelValid (omega arith)))

pub two_threads-facts :
    ((two_threads.thread 0x200400).stack_base ≡ 0x1f0000)
    × ((two_threads.thread 0x200600).stack_base ≡ 0x1f0000)
    × ((two_threads.process 0x200200).thread_count ≡ 2)
    × ((two_threads.thread 5).parent_process ≡ 1)
unfolding two_threads create_user_thread allocate allocate_non_cached_memory create_process
    get_required_blocks_from_bytes create_descs update link_blocks get_pool_addr_from_desc_addr
    get_next_process_id write_process add_new_process enter_thread get_next_thread_id write_thread
    add_new_thread set_up_thread last_of search_blocks for_blocks take_blocks finish_allocation
two_threads-facts = (refl, refl, refl, refl)
