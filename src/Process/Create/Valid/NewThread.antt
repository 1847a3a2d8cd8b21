-- ===== src/Process/Create/Valid/NewThread.antt =====
-- PsCreateThread, PsCreateIntThread and PsCreateUserThread keep the invariant.
use mathlib.Core.Path.{subst}
use mylysos.Base.{
  ℕ, ◌+◌, ◌≤◌, ◌≡◌, ◌≢◌, refl, sym, ap, ◌∙◌, Bool, List, [], ◌∷◌, ◌++◌, length, Option, none, some,
  true, arith, ok, update_ne, update_self, update_keep, u32, ◌>>◌, Returns, bind-ok,
}
use mylysos.Memory.{MemBlkManager}
use mylysos.Memory.Valid.{IsValid}
use mylysos.Hal.{setup_tss, change_tss_busy_bit, task_sw_seg}
use mylysos.Process.{
  Kernel, ProcessControlBlock, ThreadControlBlock, stop, set_process, set_thread,
  get_next_thread_id, add_new_thread,
}
use mylysos.Process.Layout.{Layout, threads_of, handles_of, Processes, Absent}
use mylysos.Process.Layout.Every.{
  Every, Every-all, Every-Absent, Absent-Every, Every-replace, Every-within, handles_of-replace,
  Every-join, Processes-agree,
}
use mylysos.Process.Layout.Append.{add_new_thread-ThreadAdded, Processes-at}
use mylysos.Process.Create.{Linkage, new_thread, write_thread, set_up_thread, enter_thread}
use mylysos.Process.Create.Valid.{KernelValid, AllLive, IsLive, Distinct}

Absent-at :
    (q : ℕ) (pre post : Layout) (p : ℕ) (ts : List ℕ)
    → Absent q (handles_of (pre ++ (p, ts) ∷ post))
    → q ≢ p
unfolding Absent handles_of
Absent-at q [] post p ts (n, a) = n
Absent-at q ((r, us) ∷ pre) post p ts (n, a) = Absent-at q pre post p ts a

-- A process of a layout without repetition stands nowhere else in it.
Distinct-apart :
    (pre post : Layout) (p : ℕ) (ts : List ℕ)
    → Distinct (handles_of (pre ++ (p, ts) ∷ post))
    → Absent p (handles_of pre) × Absent p (handles_of post)
unfolding Distinct Absent handles_of
Distinct-apart [] post p ts (a, d) = (tt, a)
Distinct-apart ((q, us) ∷ pre) post p ts (a, d) =
    let (b, c) = Distinct-apart pre post p ts d in
    ((λ e. Absent-at q pre post p ts a (sym e), b), c)

module _ (env : Linkage) (p : ℕ) (pre post : Layout) (ts : List ℕ) where
  -- The layout before, and with a thread more.
  abbrev at_first : Layout
  at_first = pre ++ (p, ts) ∷ post

  abbrev with_thread : ℕ → Layout
  with_thread t = pre ++ (p, ts ++ t ∷ []) ∷ post

  -- The new thread `t` stands at the end of the threads of `p`, stopped, with the next identifier
  -- of `p`, which counts one more.
  pub record Entered (k : Kernel) (t : ℕ) (k' : Kernel) : Type 0 where
    pub valid : KernelValid k' (pre ++ (p, ts ++ t ∷ []) ∷ post)
    pub stopped : (k'.thread t).status ≡ stop
    pub id_next : (k'.thread t).thread_id ≡ (k.process p).next_thread_id
    pub counts : (k'.process p).thread_count ≡ u32 ((k.process p).thread_count + 1)

  module _ (entry routine context stack size : ℕ) (auto : Bool) (k : Kernel) (t : ℕ) where
    -- The kernel after the structure is written.
    abbrev written : ThreadControlBlock
    written =
        new_thread p (k.process p).next_thread_id t routine context stack size auto (k.thread t).tss

    abbrev numbered : ProcessControlBlock
    numbered = record (k.process p) { next_thread_id = u32 ((k.process p).next_thread_id + 1) }

    abbrev before_add : Kernel
    before_add = set_thread t written (set_process p numbered k)

    abbrev set_up : Kernel → Kernel
    set_up k3 =
        let (tss, memory) =
          setup_tss env.flags env.syscall_stack_ptr env.syscall_stack_size true entry stack size
            k3.memory in
        set_thread t (record (k3.thread t) { tss = tss })
          (record k3 { memory = memory; gdt = change_tss_busy_bit task_sw_seg true k3.gdt })

    abbrev with_tss : Kernel → ThreadControlBlock
    with_tss k3 = record (k3.thread t) {
      tss =
          (setup_tss env.flags env.syscall_stack_ptr env.syscall_stack_size true entry stack size
            k3.memory).0;
    }

    next_id-run :
        p ≢ 0 → get_next_thread_id p k ≡ ok (k.process p).next_thread_id (set_process p numbered k)
    unfolding get_next_thread_id
    next_id-run n = ground arith

    enter_thread-run :
        (k3 : Kernel)
        → p ≢ 0
        → add_new_thread env.fuel p t before_add ≡ ok true k3
        → enter_thread env t p entry routine context stack size auto k ≡ ok (some t) (set_up k3)
    unfolding enter_thread write_thread set_up_thread
    enter_thread-run k3 n e =
        bind-ok (get_next_thread_id p) _ k (k.process p).next_thread_id (set_process p numbered k)
          (next_id-run n)
        ∙ bind-ok (write_thread t written >> add_new_thread env.fuel p t) _
            (set_process p numbered k) true k3 e

    enter_thread-Entered :
        KernelValid k (pre ++ (p, ts) ∷ post)
        → length ts ≤ env.fuel
        → t ≢ 0
        → IsLive k.pool t
        → Absent t (threads_of (pre ++ (p, ts) ∷ post))
        → (k' : Kernel) × (enter_thread env t p entry routine context stack size auto k
            ≡ ok (some t) k')
          × Entered k t k'
    unfolding Every
    enter_thread-Entered v le nonnull alive fresh =
        let (pn, d) = Processes-at k p ts pre post k.head_process v.laid_out in
        let (apart_pre, apart_post) = Distinct-apart pre post p ts v.distinct in
        let not_t = Every-Absent t (threads_of (pre ++ (p, ts) ∷ post)) fresh in
        let at = update_self k.thread t written in
        let at_p = update_self k.process p numbered in
        let laid : Processes before_add k.head_process (pre ++ (p, ts) ∷ post) =
          Processes-agree k before_add (λ x. t ≢ x)
            record {
              next_same = λ x n.
                  ap (λ (y : ThreadControlBlock). y.next_thread)
                    (update_ne k.thread t written x (λ e. n (sym e)));
              parent_same = λ x n.
                  ap (λ (y : ThreadControlBlock). y.parent_process)
                    (update_ne k.thread t written x (λ e. n (sym e)));
              head_same = λ q. update_keep k.process p numbered (λ y. y.head_thread) refl q;
              link_same = λ q. update_keep k.process p numbered (λ y. y.next_process) refl q;
            }
            (pre ++ (p, ts) ∷ post) k.head_process not_t v.laid_out in
        let (k3, run, add) =
          add_new_thread-ThreadAdded before_add p env.fuel t pre post ts laid apart_pre apart_post
            (Absent-Every t ts (Every-within (λ x. t ≢ x) pre post p ts not_t)) nonnull
            (ap (λ (x : ThreadControlBlock). x.parent_process) at)
            (ap (λ (x : ThreadControlBlock). x.next_thread) at) le in
        let same : k3.thread t ≡ written = add.thread_kept ∙ at in
        (
          set_up k3,
          enter_thread-run k3 pn run,
          record {
            valid = record {
              pool_valid = subst IsValid (sym add.pool_same) v.pool_valid;
              laid_out =
                  Processes-agree k3 (set_up k3) (λ x. Unit)
                    record {
                      next_same =
                          λ x _. update_keep k3.thread t (with_tss k3) (λ y. y.next_thread) refl x;
                      parent_same = λ x _.
                          update_keep k3.thread t (with_tss k3) (λ y. y.parent_process) refl x;
                      head_same = λ q. refl;
                      link_same = λ q. refl;
                    }
                    (pre ++ (p, ts ++ t ∷ []) ∷ post) k3.head_process
                    (Every-all (λ x. Unit) _ (λ x. tt)) add.laid_out;
              distinct =
                  subst Distinct (sym (handles_of-replace pre post p ts (ts ++ t ∷ []))) v.distinct;
              live_processes =
                  subst (AllLive k3.pool) (sym (handles_of-replace pre post p ts (ts ++ t ∷ []))) (
                    subst (λ m. AllLive m (handles_of (pre ++ (p, ts) ∷ post))) (sym add.pool_same)
                      v.live_processes);
              live_threads =
                  subst (λ m. AllLive m (threads_of (pre ++ (p, ts ++ t ∷ []) ∷ post)))
                    (sym add.pool_same)
                    (Every-replace (IsLive k.pool) pre post p ts (ts ++ t ∷ [])
                      (Every-join (IsLive k.pool) ts (t ∷ [])
                        (Every-within (IsLive k.pool) pre post p ts v.live_threads) (alive, tt))
                      v.live_threads);
            };
            stopped =
                update_keep k3.thread t (with_tss k3) (λ y. y.status) refl t
                ∙ ap (λ (y : ThreadControlBlock). y.status) same;
            id_next =
                update_keep k3.thread t (with_tss k3) (λ y. y.thread_id) refl t
                ∙ ap (λ (y : ThreadControlBlock). y.thread_id) same;
            counts = add.counts ∙ ap (λ (y : ProcessControlBlock). u32 (y.thread_count + 1)) at_p;
          },
        )

  -- The outcome of a call that creates a thread.
  pub data ThreadCreated (k : Kernel) (r : Option ℕ) (k' : Kernel) : Type 0 where
    refused : r ≡ none → KernelValid k' (pre ++ (p, ts) ∷ post) → ThreadCreated k r k'
    created : (t : ℕ) → r ≡ some t → Entered k t k' → ThreadCreated k r k'

  pub nonnull_of_live : {m : MemBlkManager} {a : ℕ} → IsValid m → IsLive m a → a ≢ 0
  nonnull_of_live {m} {a} v (s, n, l, e) z = omega (arith, z, e, v.entry_pos, v.table_fits)

  module _ (entry routine context : ℕ) (auto : Bool) (k : Kernel) where
    -- The call, once the structure is allocated at `t`, on what follows.
    pub Returns-entered :
        (stack size : ℕ) (k2 : Kernel) (t : ℕ)
        → k2.process ≡ k.process
        → KernelValid k2 (pre ++ (p, ts) ∷ post)
        → length ts ≤ env.fuel
        → IsLive k2.pool t
        → Absent t (threads_of (pre ++ (p, ts) ∷ post))
        → Returns (ThreadCreated k) (enter_thread env t p entry routine context stack size auto k2)
    Returns-entered stack size k2 t same v le alive fresh =
        let (k', run, e) =
          enter_thread-Entered entry routine context stack size auto k2 t v le
            (nonnull_of_live v.pool_valid alive) alive fresh in
        let before : k2.process p ≡ k.process p = ap (λ (f : ℕ → ProcessControlBlock). f p) same in
        subst (Returns (ThreadCreated k)) (sym run) (
          created t refl (record {
            valid = e.valid;
            stopped = e.stopped;
            id_next = e.id_next ∙ ap (λ (x : ProcessControlBlock). x.next_thread_id) before;
            counts = e.counts ∙ ap (λ (x : ProcessControlBlock). u32 (x.thread_count + 1)) before;
          }))
