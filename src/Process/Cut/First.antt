-- ===== src/Process/Cut/First.antt =====
-- The thread cutter on the first thread of a process.
use mylysos.Base.{
  ℕ, ◌≤◌, ◌<◌, ◌≡◌, ◌≢◌, refl, ap, ◌∙◌, List, [], ◌∷◌, ◌++◌, true, update, update_self, update_keep,
  ok,
}
use mylysos.Memory.{MemBlkManager}
use mylysos.Process.{Kernel, ThreadControlBlock, ProcessControlBlock, set_thread}
use mylysos.Process.Layout.{Layout, Threads, Processes}
use mylysos.Process.Layout.Append.{last, Processes-at}
use mylysos.Process.Layout.Every.{Every, Every-within, Agree, Processes-agree, Every-all}
use mylysos.Process.Create.Valid.{KernelValid, IsLive}
use mylysos.Process.Cut.{cut_thread}
use mylysos.Process.Cut.Unlink.{unlink_thread-last}
use mylysos.Process.Cut.Drop.{StackOf, counted_down, drop_thread-Dropped, cut-enter}

-- What is left behind a round for the first of several threads: it stands in the list as before,
-- and its memory is free.
pub record Dangling (k : Kernel) (t : ℕ) (l : Layout) (k' : Kernel) : Type 0 where
  pub laid_out : Processes k' k'.head_process l
  pub gone : ¬ IsLive k'.pool t

module _ (k : Kernel) (p t : ℕ) (pre post : Layout) (ys : List ℕ) where
  first_kernel : MemBlkManager → Kernel
  first_kernel m' =
      record (counted_down
        (set_thread t (record (k.thread t) { next_thread = (k.thread t).next_thread }) k) p t) {
          pool = m';
        }

  first-Agree : (m' : MemBlkManager) → Agree k (first_kernel m') (λ _. Unit {0})
  unfolding first_kernel
  first-Agree m' = record {
    next_same = λ j _. update_keep k.thread t _ (λ (y : ThreadControlBlock). y.next_thread) refl j;
    parent_same =
        λ j _. update_keep k.thread t _ (λ (y : ThreadControlBlock). y.parent_process) refl j;
    head_same = λ q. update_keep k.process p _ (λ (y : ProcessControlBlock). y.head_thread) refl q;
    link_same = λ q. update_keep k.process p _ (λ (y : ProcessControlBlock). y.next_process) refl q;
  }

  -- The thread cutter frees the memory of the first of several threads of a process, but leaves it
  -- in the list.
  pub cut_thread-Dangling :
      (fuel : ℕ)
      → KernelValid k (pre ++ (p, t ∷ ys) ∷ post)
      → StackOf k t
      → k.current_thread ≢ 0
      → p ≢ (k.thread k.current_thread).parent_process
      → 2 ≤ (k.process p).thread_count
      → 0 < fuel
      → (k' : Kernel) × (cut_thread fuel t k ≡ ok tt k')
        × Dangling k t (pre ++ (p, t ∷ ys) ∷ post) k'
  unfolding last Threads first_kernel
  cut_thread-Dangling fuel v stack c n two enough =
      let (pn, list) = Processes-at k p (t ∷ ys) pre post k.head_process v.laid_out in
      let w = record (k.thread t) { next_thread = (k.thread t).next_thread } in
      let same : update k.thread t w t ≡ k.thread t = update_self k.thread t w in
      let run = unlink_thread-last k p [] ys fuel t list two enough in
      let live = (Every-within (IsLive k.pool) pre post p (t ∷ ys) v.live_threads) in
      let (m', dropped, d) =
        drop_thread-Dropped (set_thread t w k) p t v.pool_valid (unfold Every in live.0)
          (rw (ap (λ (y : ThreadControlBlock). y.stack_base) same) stack) in
      (
        first_kernel m',
        cut-enter k p t fuel (set_thread t w k) list.1 pn list.2 c n (
              run
              ∙ ap
                  (λ i. ok true (
                    set_thread i (record (k.thread i) { next_thread = (k.thread t).next_thread })
                      k))
                  list.0)
            ∙ dropped,
        record {
          laid_out =
              Processes-agree k (first_kernel m') (λ _. Unit {0}) (first-Agree m') _ k.head_process
                (Every-all (λ _. Unit {0}) _ (λ _. tt)) v.laid_out;
          gone = d.gone;
        },
      )
