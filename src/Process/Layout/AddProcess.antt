-- ===== src/Process/Layout/AddProcess.antt =====
-- PspAddNewProcess puts the new process at the end of the list of processes.
use mylysos.Base.{
  ℕ, zero, suc, ◌+◌, ◌≤◌, ◌<◌, ◌≡◌, ◌≢◌, refl, sym, ap, ◌∙◌, List, [], ◌∷◌, ◌++◌, some, true,
  length, arith, update, update_self, update_ne, u32, ok,
}
use mathlib.Core.Path.{subst}
use mylysos.Process.{
  Kernel, ThreadControlBlock, ProcessControlBlock, last_of, set_process, add_new_process,
}
use mylysos.Process.Layout.{Layout, handles_of, Threads, Processes, Absent, Threads-frame}
use mylysos.Process.Layout.Append.{last, Absent-last, last_of-end, last_of-step}

module _ (k : Kernel) where
  -- The loop finds the last process of the list.
  last_of-Processes :
      (l : Layout) (fuel h x : ℕ) (ts : List ℕ)
      → Processes k h ((x, ts) ∷ l)
      → length l < fuel
      → (last_of fuel (λ i. (k.process i).next_process) h ≡ some (last x (handles_of l)))
        × ((k.process (last x (handles_of l))).next_process ≡ 0)
  unfolding Processes last handles_of
  last_of-Processes l zero h x ts c lt = absurd (omega arith)
  last_of-Processes [] (suc fuel) h x ts (e, n, d, z) lt =
      let next : ℕ → ℕ = λ i. (k.process i).next_process in
      (ap (last_of (suc fuel) next) e ∙ last_of-end fuel next x z, z)
  last_of-Processes ((y, us) ∷ l) (suc fuel) h x ts (e, n, d, c) lt =
      let next : ℕ → ℕ = λ i. (k.process i).next_process in
      let (a, m, d', c') = c in
      let (f, z) = last_of-Processes l fuel (k.process x).next_process y us c (omega arith) in
      (
        ap (last_of (suc fuel) next) e
            ∙ last_of-step fuel next x y a m
            ∙ ap (last_of fuel next) (sym a)
            ∙ f,
        z,
      )

  module _ (p : ℕ) (nonnull : p ≢ 0) where
    Processes-append :
        (l : Layout) (h x : ℕ) (ts : List ℕ)
        → Absent p (x ∷ handles_of l)
        → (k.process p).head_thread ≡ 0
        → (k.process p).next_process ≡ 0
        → Processes k h ((x, ts) ∷ l)
        → (k.process (last x (handles_of l))).next_process ≡ 0
        → (k' : Kernel) → k'.thread ≡ k.thread
        → k'.process
          ≡ update k.process
              (last x (handles_of l))
              (record (k.process (last x (handles_of l))) { next_process = p })
        → Processes k' h ((x, ts) ∷ l ++ (p, []) ∷ [])
    unfolding Processes Absent last handles_of Threads
    Processes-append [] h x ts (ne, a) empty z (e, n, d, c) end k' et same =
        let v : ProcessControlBlock = record (k.process x) { next_process = p } in
        let at : k'.process x ≡ v =
          ap (λ (f : ℕ → ProcessControlBlock). f x) same ∙ update_self k.process x v in
        let at' : k'.process p ≡ k.process p =
          ap (λ (f : ℕ → ProcessControlBlock). f p) same ∙ update_ne k.process x v p ne in
        (
          e,
          n,
          subst (λ i. Threads k' x i ts) (sym (ap (λ (y : ProcessControlBlock). y.head_thread) at))
              (Threads-frame k k' x (λ t _. ap (λ (f : ℕ → ThreadControlBlock). f t) et) ts _ d),
          (
            ap (λ (y : ProcessControlBlock). y.next_process) at,
            nonnull,
            ap (λ (y : ProcessControlBlock). y.head_thread) at' ∙ empty,
            ap (λ (y : ProcessControlBlock). y.next_process) at' ∙ z,
          ),
        )
    Processes-append ((y, us) ∷ l) h x ts (ne, a) empty z (e, n, d, c) end k' et same =
        let lst = last y (handles_of l) in
        let v : ProcessControlBlock = record (k.process lst) { next_process = p } in
        let apart : x ≢ lst =
          λ same'. c.1 (sym c.0 ∙ ap (λ i. (k.process i).next_process) same' ∙ end) in
        let at : k'.process x ≡ k.process x =
          ap (λ (f : ℕ → ProcessControlBlock). f x) same ∙ update_ne k.process lst v x apart in
        (
          e,
          n,
          subst (λ i. Threads k' x i ts) (sym (ap (λ (y : ProcessControlBlock). y.head_thread) at))
              (Threads-frame k k' x (λ t _. ap (λ (f : ℕ → ThreadControlBlock). f t) et) ts _ d),
          subst (λ i. Processes k' i ((y, us) ∷ l ++ (p, []) ∷ []))
              (sym (ap (λ (y : ProcessControlBlock). y.next_process) at))
              (Processes-append l (k.process x).next_process y us a empty z c end k' et same),
        )

    add_new_process-first :
        (fuel : ℕ)
        → k.head_process ≡ 0
        → add_new_process fuel p k
          ≡ ok true (record k { process_count = u32 (k.process_count + 1); head_process = p })
    unfolding add_new_process
    add_new_process-first fuel e = ground (arith, e)

    add_new_process-behind :
        (fuel i : ℕ)
        → k.head_process ≢ 0
        → last_of fuel (λ j. (k.process j).next_process) k.head_process ≡ some i
        → add_new_process fuel p k
          ≡ ok true (
              set_process i
                (record (k.process i) { next_process = p })
                (record k { process_count = u32 (k.process_count + 1) }))
    unfolding add_new_process
    add_new_process-behind fuel i n e = ground (arith, e)

    pub record ProcessAdded (l : Layout) (k' : Kernel) : Type 0 where
      pub laid_out : Processes k' k'.head_process (l ++ (p, []) ∷ [])
      pub counts : k'.process_count ≡ u32 (k.process_count + 1)
      pub threads_same : k'.thread ≡ k.thread
      pub pool_same : k'.pool ≡ k.pool
      pub id_kept : (k'.process p).process_id ≡ (k.process p).process_id
      pub ids_same : k'.next_process_id ≡ k.next_process_id

    -- PspAddNewProcess puts a new process without threads at the end of the list of processes and
    -- counts it; no list of threads changes.
    pub add_new_process-ProcessAdded :
        (fuel : ℕ) (l : Layout)
        → Processes k k.head_process l
        → Absent p (handles_of l)
        → (k.process p).head_thread ≡ 0
        → (k.process p).next_process ≡ 0
        → length l ≤ fuel
        → (k' : Kernel) × (add_new_process fuel p k ≡ ok true k') × ProcessAdded l k'
    unfolding Processes Threads handles_of
    add_new_process-ProcessAdded fuel [] c a empty z le = (
      record k { process_count = u32 (k.process_count + 1); head_process = p },
      add_new_process-first fuel c,
      record {
        laid_out = (refl, nonnull, empty, z);
        counts = refl;
        threads_same = refl;
        pool_same = refl;
        id_kept = refl;
        ids_same = refl;
      },
    )
    add_new_process-ProcessAdded fuel ((x, ts) ∷ l) c a empty z le =
        let (f, end) = last_of-Processes l fuel k.head_process x ts c (omega arith) in
        let i = last x (handles_of l) in
        let v : ProcessControlBlock = record (k.process i) { next_process = p } in
        let k' = set_process i v (record k { process_count = u32 (k.process_count + 1) }) in
        (
          k',
          add_new_process-behind fuel i (λ e. c.1 (sym c.0 ∙ e)) f,
          record {
            laid_out = Processes-append l k.head_process x ts a empty z c end k' refl refl;
            counts = refl;
            threads_same = refl;
            pool_same = refl;
            id_kept =
                ap (λ (y : ProcessControlBlock). y.process_id)
                  (update_ne k.process i v p (Absent-last p (handles_of l) x a));
            ids_same = refl;
          },
        )
