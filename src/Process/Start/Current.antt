-- ===== src/Process/Start/Current.antt =====
-- The creation of a thread leaves the current thread as it is.
use mylysos.Base.{
  ℕ, ◌≡◌, refl, Bool, true, Option, none, some, u32, ◌+◌, ◌==◌, Bool-cases, inl, inr, Run, ok,
  fault, hung, pure, After, Keeps, Keeps-bind, Keeps-if,
}
use mylysos.Memory.{MemBlkManager, allocate_non_cached_memory}
use mylysos.Process.{
  Kernel, ProcessControlBlock, set_process, set_thread, allocate, get_next_thread_id,
  add_new_thread, last_of, sizeof_thread,
}
use mylysos.Process.Create.{
  Linkage, new_thread, write_thread, set_up_thread, enter_thread, create_stacked_thread,
}

abbrev pub current : Kernel → ℕ
current k = k.current_thread

allocate-Keeps : (bytes : ℕ) → Keeps current (allocate bytes)
unfolding allocate
allocate-Keeps bytes k = go (allocate_non_cached_memory bytes k.pool)
  where
    go :
        (r : Run MemBlkManager ℕ)
        → After
            (λ a k'. current k' ≡ current k)
            (elim r as (λ x. Run Kernel ℕ) [
              | ok a pool ↦ ok a (record k { pool = pool })
              | fault ↦ fault
              | hung ↦ hung
            ])
    go (ok a pool) = refl
    go fault = tt
    go hung = tt

get_next_thread_id-Keeps : (process : ℕ) → Keeps current (get_next_thread_id process)
unfolding get_next_thread_id
get_next_thread_id-Keeps process k = elim (Bool-cases (process == 0)) [
  | inl e ↦ rw e tt
  | inr e ↦ rw e refl
]

add_new_thread-Keeps :
    (fuel process handle : ℕ) → Keeps current (add_new_thread fuel process handle)
unfolding add_new_thread
add_new_thread-Keeps fuel process handle k = elim (Bool-cases (process == 0)) [
  | inl e ↦ rw e tt
  | inr e ↦ elim (Bool-cases ((k.process process).head_thread == 0)) [
    | inl h ↦ rw (e, h) refl
    | inr h ↦
        rw (e, h)
          (go (last_of fuel (λ i. (k.thread i).next_thread) (k.process process).head_thread))
  ]
]
  where
    p : ProcessControlBlock
    p = k.process process

    go :
        (o : Option ℕ)
        → After
            (λ (a : Bool) k'. current k' ≡ current k)
            (elim o as (λ x. Run Kernel Bool) [
              | none ↦ hung
              | some i ↦ ok true (
                  set_process process
                    (record p { thread_count = u32 (p.thread_count + 1) })
                    (set_thread i (record (k.thread i) { next_thread = handle }) k))
            ])
    go none = tt
    go (some i) = refl

module _ (env : Linkage) (process : ℕ) where
  enter_thread-Keeps :
      (handle entry routine context stack size : ℕ) (auto : Bool)
      → Keeps current (enter_thread env handle process entry routine context stack size auto)
  unfolding enter_thread write_thread set_up_thread
  enter_thread-Keeps handle entry routine context stack size auto k =
      Keeps-bind current (get_next_thread_id process) _ (get_next_thread_id-Keeps process)
        (λ id.
          Keeps-bind current _ _
            (Keeps-bind current
              (write_thread handle (
                new_thread process id handle routine context stack size auto (k.thread handle).tss))
              _ (λ k. refl) (λ _. add_new_thread-Keeps env.fuel process handle))
            (λ added.
              Keeps-if current added _ _
                (Keeps-bind current (set_up_thread env handle entry stack size)
                  (λ _. pure (some handle)) (λ k. refl) (λ _ k. refl))
                (λ k. refl)))
        k

  pub create_stacked_thread-Keeps :
      (entry routine context size : ℕ) (auto : Bool)
      → Keeps current (create_stacked_thread env process entry routine context size auto)
  unfolding create_stacked_thread
  create_stacked_thread-Keeps entry routine context size auto =
      Keeps-bind current (allocate sizeof_thread) _ (allocate-Keeps sizeof_thread) (λ handle.
        Keeps-if current (handle == 0) _ _ (λ k. refl)
          (Keeps-bind current (allocate size) _ (allocate-Keeps size) (λ stack.
            Keeps-if current (stack == 0) _ _ (λ k. refl)
              (enter_thread-Keeps handle entry routine context stack size auto))))
