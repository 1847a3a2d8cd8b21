-- ===== src/Process/Create/Valid/NewProcess.antt =====
-- PsCreateProcess keeps the invariant.
use mathlib.Core.Path.{subst}
use mylysos.Base.{
  ℕ, ◌+◌, ◌≤◌, ◌≡◌, ◌≢◌, refl, sym, ap, ◌∙◌, inl, inr, [], ◌∷◌, ◌++◌, length, Option, none, some,
  true, arith, ok, update_ne, update_self, u32, Cmd, pure, ◌>>=◌, ◌>>◌, ◌==◌, if◌then◌else◌,
  Returns, Returns-bind,
}
use mylysos.Memory.{MemBlkManager}
use mylysos.Memory.Valid.{IsValid}
use mylysos.Process.{
  Kernel, ProcessControlBlock, sizeof_process, allocate, set_process, get_next_process_id,
  add_new_process,
}
use mylysos.Process.Layout.Every.{Every}
use mylysos.Process.Layout.{
  Layout, threads_of, handles_of, Processes, Absent, Processes-frame, handles_of-snoc,
  threads_of-snoc,
}
use mylysos.Process.Layout.AddProcess.{add_new_process-ProcessAdded}
use mylysos.Process.Create.{Linkage, create_process, new_process, write_process}
use mylysos.Process.Create.Valid.{
  KernelValid, PoolStep, Stepped, stepped, allocate-Stepped, AllLive, IsLive, AllLive-kept,
  AllLive-Absent, AllLive-append, Distinct, Distinct-snoc, KernelValid-Stepped,
}

module _ (env : Linkage) (k : Kernel) (l : Layout) where
  -- A new process stands at the end of the list, with the next identifier, or the call is refused.
  pub data ProcessCreated (r : Option ℕ) (k' : Kernel) : Type 0 where
    refused : r ≡ none → KernelValid k' l → ProcessCreated r k'
    created :
        (p : ℕ)
        → r ≡ some p
        → KernelValid k' (l ++ (p, []) ∷ [])
        → (k'.process p).process_id ≡ k.next_process_id
        → k'.next_process_id ≡ u32 (k.next_process_id + 1)
        → ProcessCreated r k'

  enter : ℕ → Cmd Kernel (Option ℕ)
  enter handle =
      if handle == 0
      then pure none
      else (get_next_process_id >>= λ id.
          write_process handle (new_process id handle)
          >> add_new_process env.fuel handle
          >>= λ added. pure (if added then some handle else none))

  abbrev written : Kernel → ℕ → Kernel
  written k1 a =
      set_process a (new_process k1.next_process_id a)
        (record k1 { next_process_id = u32 (k1.next_process_id + 1) })

  enter-null : (k1 : Kernel) → enter 0 k1 ≡ ok none k1
  unfolding enter
  enter-null k1 = refl

  enter-run :
      (k1 k2 : Kernel) (a : ℕ)
      → a ≢ 0
      → add_new_process env.fuel a (written k1 a) ≡ ok true k2
      → enter a k1 ≡ ok (some a) k2
  unfolding enter get_next_process_id write_process
  enter-run k1 k2 a n e = ground (arith, e)

  -- The call on a new address.
  enter-created :
      KernelValid k l
      → length l ≤ env.fuel
      → (a : ℕ) (m' : MemBlkManager) → PoolStep k.pool m' a
      → IsLive m' a
      → ((h : ℕ) → IsLive k.pool h → a ≢ h)
      → Returns ProcessCreated (enter a (record k { pool = m' }))
  unfolding Every
  enter-created v le a m' s alive new =
      let k0 = record k { pool = m' } in
      let nonnull : a ≢ 0 = λ z. omega (arith, z, alive.3, s.valid.entry_pos, s.valid.table_fits) in
      let fresh : Absent a (handles_of l) = AllLive-Absent (handles_of l) new v.live_processes in
      let at = update_self k.process a (new_process k.next_process_id a) in
      let laid : Processes (written k0 a) k.head_process l =
        Processes-frame k (written k0 a) a
          record { thread_same = λ t n. refl; process_same = λ q n. update_ne k.process a _ q n } l
          k.head_process fresh v.laid_out in
      let (k2, run, add) =
        add_new_process-ProcessAdded (written k0 a) a nonnull env.fuel l laid fresh
          (ap (λ (x : ProcessControlBlock). x.head_thread) at)
          (ap (λ (x : ProcessControlBlock). x.next_process) at) le in
      subst (Returns ProcessCreated) (sym (enter-run k0 k2 a nonnull run)) (
        created a refl
          (record {
            pool_valid = subst IsValid (sym add.pool_same) s.valid;
            laid_out = add.laid_out;
            distinct =
                subst Distinct (sym (handles_of-snoc l a))
                  (Distinct-snoc (handles_of l) a fresh v.distinct);
            live_processes =
                subst (λ hs. AllLive k2.pool hs) (sym (handles_of-snoc l a))
                  (subst (λ m. AllLive m (handles_of l ++ a ∷ [])) (sym add.pool_same)
                    (AllLive-append m' (handles_of l) (a ∷ [])
                      (AllLive-kept (handles_of l) s.kept v.live_processes) (alive, tt)));
            live_threads =
                subst (λ hs. AllLive k2.pool hs) (sym (threads_of-snoc l a))
                  (subst (λ m. AllLive m (threads_of l)) (sym add.pool_same)
                    (AllLive-kept (threads_of l) s.kept v.live_threads));
          })
          (add.id_kept ∙ ap (λ (x : ProcessControlBlock). x.process_id) at) add.ids_same)

  enter-ProcessCreated :
      KernelValid k l
      → length l ≤ env.fuel
      → (a : ℕ) (k1 : Kernel) → Stepped k a k1
      → Returns ProcessCreated (enter a k1)
  unfolding enter
  enter-ProcessCreated v le a k1 (stepped m' s e) =
      subst (λ x. Returns ProcessCreated (enter a x)) (sym e)
        (elim s.result [
          | inl z ↦
              subst (λ x. Returns ProcessCreated (enter x (record k { pool = m' }))) (sym z)
                (refused refl (KernelValid-Stepped v (stepped m' s refl)))
          | inr (alive, new) ↦ enter-created v le a m' s alive new
        ])

  pub create_process-ProcessCreated :
      KernelValid k l → length l ≤ env.fuel → Returns ProcessCreated (create_process env k)
  unfolding create_process enter
  create_process-ProcessCreated v le =
      Returns-bind (Stepped k) ProcessCreated (allocate sizeof_process) enter k
        (allocate-Stepped k sizeof_process v.pool_valid (omega arith)) (enter-ProcessCreated v le)
