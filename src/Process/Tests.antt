-- ===== src/Process/Tests.antt =====
-- Kernels with a few processes, and the theorems on them.
use mylysos.Base.{◌≡◌, refl, false, none, some, [], ◌∷◌, arith, ok, hung, Returns}
use mylysos.Process.Listing.{shell_command_ps, shell_command_ps-lines_of, header, lines_of}
use mylysos.Process.Created.{env, one_process, one_process-KernelValid}
use mylysos.Process.Samples.{three}
use mylysos.Process.Layout.{Layout, threads_of, Threads, Processes}
use mylysos.Process.Create.{create_stacked_thread}
use mylysos.Process.Create.Valid.NewThread.{ThreadCreated}
use mylysos.Process.Create.Valid.Calls.{create_stacked_thread-ThreadCreated}
use mylysos.Process.Schedule.{
  find_next_thread_scheduled, find_thread, thread_after, find_process, is_runnable,
}
use mylysos.Process.Schedule.RoundRobin.{Round, Ready, first_runnable, find_next-first_runnable}

abbrev three_layout : Layout
three_layout = (1, 10 ∷ 11 ∷ []) ∷ (2, []) ∷ (3, 30 ∷ []) ∷ []

three-Processes : Processes three 1 three_layout
unfolding Processes Threads
three-Processes = ground arith

-- The thread 30 waits, so that the thread 10 comes next.
scheduled : find_next_thread_scheduled 7 3 three ≡ ok 10 (record three { current_thread = 10 })
unfolding find_next_thread_scheduled find_thread thread_after find_process is_runnable
scheduled = refl

three-Ready : Ready three three_layout 7
three-Ready = record {
  laid_out = three-Processes;
  some_process = λ e. omega (arith, e);
  enough = omega arith;
}

-- Behind the thread 11 come 30, 10 and itself.
three-Round : Round three_layout 11 (30 ∷ 10 ∷ 11 ∷ [])
unfolding threads_of
three-Round = record { before = 10 ∷ []; after = 30 ∷ []; at = refl; order = refl }

find_next-first_runnable_example :
    find_next_thread_scheduled 7 3 three ≡ elim (first_runnable three (30 ∷ 10 ∷ 11 ∷ [])) [
      | none ↦ hung
      | some t ↦ ok t (record three { current_thread = t })
    ]
find_next-first_runnable_example =
    find_next-first_runnable three three_layout 7 3 (30 ∷ 10 ∷ 11 ∷ []) three-Ready
      (λ e. omega (arith, e)) (λ e. omega (arith, e)) three-Round (omega arith)

create_stacked_thread-ThreadCreated_example :
    Returns
      (ThreadCreated env 0x200200 [] [] [] one_process)
      (create_stacked_thread env 0x200200 0x2000 0x8000 0 1024 false one_process)
create_stacked_thread-ThreadCreated_example =
    create_stacked_thread-ThreadCreated env 0x200200 [] [] [] one_process 0x2000 0x8000 0 1024 false
      one_process-KernelValid (omega arith) (omega arith)

shell_command_ps-lines_of_example :
    shell_command_ps 3 3 three ≡ some (header ∷ lines_of three three_layout)
unfolding threads_of
shell_command_ps-lines_of_example =
    shell_command_ps-lines_of 3 3 three three_layout (omega arith) (omega arith) three-Processes
