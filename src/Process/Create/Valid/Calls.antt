-- ===== src/Process/Create/Valid/Calls.antt =====
-- The calls that create threads, from the allocation on.
use mathlib.Core.Path.{subst}
use mylysos.Base.{
  ℕ, ◌≤◌, ◌<◌, ◌≡◌, ◌≢◌, refl, sym, inl, inr, Bool, false, List, ◌∷◌, ◌++◌, length, Option, none,
  arith, Cmd, pure, ◌>>=◌, ◌==◌, if◌then◌else◌, Returns, Returns-bind,
}
use mylysos.Process.{Kernel, sizeof_thread, allocate}
use mylysos.Process.Layout.{Layout, threads_of, Absent}
use mylysos.Process.Create.{
  Linkage, enter_thread, create_stacked_thread, create_user_thread, user_app_entry_point,
  user_app_stack_ptr, user_app_stack_size,
}
use mylysos.Process.Create.Valid.{
  KernelValid, KernelValid-Stepped, Stepped, stepped, allocate-Stepped, IsLive, AllLive-Absent,
}
use mylysos.Process.Create.Valid.NewThread.{
  ThreadCreated, refused, Returns-entered, nonnull_of_live,
}

module _ (env : Linkage) (p : ℕ) (pre post : Layout) (ts : List ℕ) (k : Kernel) where
  module _ (context : ℕ) where
    after_user : ℕ → Cmd Kernel (Option ℕ)
    after_user handle =
        if handle == 0
        then pure none
        else enter_thread env handle p user_app_entry_point user_app_entry_point context
            user_app_stack_ptr user_app_stack_size false

    after_user-new :
        (h : ℕ) (k1 : Kernel)
        → h ≢ 0
        → after_user h k1
          ≡ enter_thread env h p user_app_entry_point user_app_entry_point context
              user_app_stack_ptr user_app_stack_size false k1
    unfolding after_user
    after_user-new h k1 n = ground arith

    after_user-ThreadCreated :
        KernelValid k (pre ++ (p, ts) ∷ post)
        → length ts ≤ env.fuel
        → (h : ℕ) (k1 : Kernel) → Stepped k h k1
        → Returns (ThreadCreated env p pre post ts k) (after_user h k1)
    unfolding after_user
    after_user-ThreadCreated v le h k1 (stepped m' s e) =
        subst (λ x. Returns (ThreadCreated env p pre post ts k) (after_user h x)) (sym e)
          (elim s.result [
            | inl z ↦
                subst
                  (λ x.
                    Returns (ThreadCreated env p pre post ts k)
                      (after_user x (record k { pool = m' })))
                  (sym z) (refused refl (KernelValid-Stepped v (stepped m' s refl)))
            | inr (alive, new) ↦
                subst (Returns (ThreadCreated env p pre post ts k))
                  (sym (after_user-new h _ (nonnull_of_live env p pre post ts s.valid alive)))
                  (Returns-entered env p pre post ts user_app_entry_point user_app_entry_point
                    context false k user_app_stack_ptr user_app_stack_size _ h refl
                    (KernelValid-Stepped v (stepped m' s refl)) le alive
                    (AllLive-Absent (threads_of (pre ++ (p, ts) ∷ post)) new v.live_threads))
          ])

    -- For a process of the layout PsCreateUserThread returns and keeps the invariant: it refuses,
    -- or puts a new stopped thread, whose handle is a live allocation, at the end of the threads
    -- of the process, with the next identifier.
    pub create_user_thread-ThreadCreated :
        KernelValid k (pre ++ (p, ts) ∷ post)
        → length ts ≤ env.fuel
        → Returns (ThreadCreated env p pre post ts k) (create_user_thread env p context k)
    unfolding create_user_thread after_user
    create_user_thread-ThreadCreated v le =
        Returns-bind (Stepped k) (ThreadCreated env p pre post ts k) (allocate sizeof_thread)
          after_user k (allocate-Stepped k sizeof_thread v.pool_valid (omega arith))
          (after_user-ThreadCreated v le)

  module _ (entry routine context size : ℕ) (auto : Bool) where
    with_stack : ℕ → ℕ → Cmd Kernel (Option ℕ)
    with_stack handle stack =
        if stack == 0
        then pure none
        else enter_thread env handle p entry routine context stack size auto

    after_structure : ℕ → Cmd Kernel (Option ℕ)
    after_structure handle =
        if handle == 0
        then pure none
        else (allocate size >>= λ stack.
            if stack == 0
            then pure none
            else enter_thread env handle p entry routine context stack size auto)

    with_stack-new :
        (h stack : ℕ) (k2 : Kernel)
        → stack ≢ 0
        → with_stack h stack k2 ≡ enter_thread env h p entry routine context stack size auto k2
    unfolding with_stack
    with_stack-new h stack k2 n = ground arith

    after_structure-new :
        (h : ℕ) (k1 : Kernel) → h ≢ 0 → after_structure h k1 ≡ (allocate size >>= with_stack h) k1
    unfolding after_structure with_stack
    after_structure-new h k1 n = ground arith

    -- What is known of the new structure, between the two allocations.
    with_stack-ThreadCreated :
        (h : ℕ) (k1 : Kernel)
        → k1.process ≡ k.process
        → KernelValid k1 (pre ++ (p, ts) ∷ post)
        → length ts ≤ env.fuel
        → IsLive k1.pool h
        → Absent h (threads_of (pre ++ (p, ts) ∷ post))
        → (stack : ℕ) (k2 : Kernel) → Stepped k1 stack k2
        → Returns (ThreadCreated env p pre post ts k) (with_stack h stack k2)
    unfolding with_stack
    with_stack-ThreadCreated h k1 same v le alive fresh stack k2 (stepped m' s e) =
        subst (λ x. Returns (ThreadCreated env p pre post ts k) (with_stack h stack x)) (sym e)
          (elim s.result [
            | inl z ↦
                subst
                  (λ x.
                    Returns (ThreadCreated env p pre post ts k)
                      (with_stack h x (record k1 { pool = m' })))
                  (sym z) (refused refl (KernelValid-Stepped v (stepped m' s refl)))
            | inr (stack_live, new) ↦
                subst (Returns (ThreadCreated env p pre post ts k))
                  (sym (
                    with_stack-new h stack _
                      (nonnull_of_live env p pre post ts s.valid stack_live)))
                  (Returns-entered env p pre post ts entry routine context auto k stack size _ h
                    same (KernelValid-Stepped v (stepped m' s refl)) le (s.kept h alive) fresh)
          ])

    after_structure-ThreadCreated :
        KernelValid k (pre ++ (p, ts) ∷ post)
        → length ts ≤ env.fuel
        → 0 < size
        → (h : ℕ) (k1 : Kernel) → Stepped k h k1
        → Returns (ThreadCreated env p pre post ts k) (after_structure h k1)
    unfolding after_structure
    after_structure-ThreadCreated v le pos h k1 (stepped m' s e) =
        let k0 = record k { pool = m' } in
        let v0 = KernelValid-Stepped v (stepped m' s refl) in
        subst (λ x. Returns (ThreadCreated env p pre post ts k) (after_structure h x)) (sym e)
          (elim s.result [
            | inl z ↦
                subst (λ x. Returns (ThreadCreated env p pre post ts k) (after_structure x k0))
                  (sym z) (refused refl v0)
            | inr (alive, new) ↦
                subst (Returns (ThreadCreated env p pre post ts k))
                  (sym (after_structure-new h k0 (nonnull_of_live env p pre post ts s.valid alive)))
                  (Returns-bind (Stepped k0) (ThreadCreated env p pre post ts k) (allocate size)
                    (with_stack h) k0 (allocate-Stepped k0 size v0.pool_valid pos)
                    (with_stack-ThreadCreated h k0 refl v0 le alive
                      (AllLive-Absent (threads_of (pre ++ (p, ts) ∷ post)) new v.live_threads)))
          ])

    -- For a process of the layout and a stack of at least one byte PsCreateThread and
    -- PsCreateIntThread return and keep the invariant: they refuse, or put a new stopped thread,
    -- whose handle is a live allocation, at the end of the threads of the process, with the next
    -- identifier.
    pub create_stacked_thread-ThreadCreated :
        KernelValid k (pre ++ (p, ts) ∷ post)
        → length ts ≤ env.fuel
        → 0 < size
        → Returns
            (ThreadCreated env p pre post ts k)
            (create_stacked_thread env p entry routine context size auto k)
    unfolding create_stacked_thread after_structure
    create_stacked_thread-ThreadCreated v le pos =
        Returns-bind (Stepped k) (ThreadCreated env p pre post ts k) (allocate sizeof_thread)
          after_structure k (allocate-Stepped k sizeof_thread v.pool_valid (omega arith))
          (after_structure-ThreadCreated v le pos)
