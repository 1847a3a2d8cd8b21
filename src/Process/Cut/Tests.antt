-- ===== src/Process/Cut/Tests.antt =====
-- A process with two threads, and the theorems on it.
use mylysos.Base.{◌≡◌, refl, inl, [], ◌∷◌, arith, ok}
use mylysos.Process.{Kernel}
use mylysos.Process.Created.{two_threads, two_threads-KernelValid, two_threads-facts}
use mylysos.Process.Layout.{Layout, Processes-same}
use mylysos.Process.Layout.Every.{Every}
use mylysos.Process.Create.Valid.{KernelValid}
use mylysos.Process.Cut.{cut_thread}
use mylysos.Process.Cut.First.{Dangling, cut_thread-Dangling}

abbrev both : Layout
both = (0x200200, 0x200400 ∷ 0x200600 ∷ []) ∷ []

-- A thread of another process runs.
abbrev running_other : Kernel
running_other = record two_threads { current_thread = 5 }

running_other-KernelValid : KernelValid running_other both
running_other-KernelValid = record {
  pool_valid = two_threads-KernelValid.pool_valid;
  laid_out =
      Processes-same two_threads running_other refl refl both two_threads.head_process
        two_threads-KernelValid.laid_out;
  distinct = two_threads-KernelValid.distinct;
  live_processes = two_threads-KernelValid.live_processes;
  live_threads = two_threads-KernelValid.live_threads;
}

cut_thread-Dangling_example :
    (k : Kernel) × (cut_thread 8 0x200400 running_other ≡ ok tt k)
    × Dangling running_other 0x200400 both k
cut_thread-Dangling_example =
    cut_thread-Dangling running_other 0x200200 0x200400 [] [] (0x200600 ∷ []) 8
      running_other-KernelValid (inl (omega (arith, two_threads-facts.0))) (omega arith)
      (λ e. omega (arith, e, two_threads-facts.3)) (omega (arith, two_threads-facts.2))
      (omega arith)
