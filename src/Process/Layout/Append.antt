-- ===== src/Process/Layout/Append.antt =====
-- PspAddNewThread and PspAddNewProcess put the new structure at the end of its list.
use mathlib.Core.Path.{subst}
use mylysos.Base.{
  ℕ, zero, suc, ◌+◌, ◌≤◌, ◌<◌, ◌≡◌, ◌≢◌, refl, sym, ap, ◌∙◌, List, [], ◌∷◌, ◌++◌, some, true,
  length, arith, update, update_self, update_ne, u32, ok,
}
use mylysos.Process.{
  Kernel, ThreadControlBlock, ProcessControlBlock, last_of, set_process, set_thread, add_new_thread,
}
use mylysos.Process.Layout.{Layout, handles_of, Threads, Processes, Absent, Processes-replace}

unfoldable pub last : ℕ → List ℕ → ℕ
last x [] = x
last x (y ∷ ys) = last y ys

pub last_of-end :
    (fuel : ℕ) (next : ℕ → ℕ) (i : ℕ) → next i ≡ 0 → last_of (suc fuel) next i ≡ some i
unfolding last_of
last_of-end fuel next i e = ground (arith, e)

pub last_of-step :
    (fuel : ℕ) (next : ℕ → ℕ) (i j : ℕ)
    → next i ≡ j
    → j ≢ 0
    → last_of (suc fuel) next i ≡ last_of fuel next j
unfolding last_of
last_of-step fuel next i j e n = ground (arith, e)

pub Absent-last : (t : ℕ) (ts : List ℕ) (x : ℕ) → Absent t (x ∷ ts) → t ≢ last x ts
unfolding Absent last
Absent-last t [] x (n, a) = n
Absent-last t (y ∷ ts) x (n, a) = Absent-last t ts y a

module _ (k : Kernel) (p : ℕ) where
  -- The loop finds the last thread of the list.
  last_of-Threads :
      (ts : List ℕ) (fuel h x : ℕ)
      → Threads k p h (x ∷ ts)
      → length ts < fuel
      → (last_of fuel (λ i. (k.thread i).next_thread) h ≡ some (last x ts))
        × ((k.thread (last x ts)).next_thread ≡ 0)
        × ((k.thread (last x ts)).parent_process ≡ p)
  unfolding Threads last
  last_of-Threads ts zero h x c lt = absurd (omega arith)
  last_of-Threads [] (suc fuel) h x (e, n, o, z) lt =
      let next : ℕ → ℕ = λ i. (k.thread i).next_thread in
      (ap (last_of (suc fuel) next) e ∙ last_of-end fuel next x z, z, o)
  last_of-Threads (y ∷ ts) (suc fuel) h x (e, n, o, d) lt =
      let next : ℕ → ℕ = λ i. (k.thread i).next_thread in
      let (a, m, q, c) = d in
      let (f, z, o') = last_of-Threads ts fuel (k.thread x).next_thread y d (omega arith) in
      (
        ap (last_of (suc fuel) next) e
            ∙ last_of-step fuel next x y a m
            ∙ ap (last_of fuel next) (sym a)
            ∙ f,
        z,
        o',
      )

  module _ (t : ℕ) (nonnull : t ≢ 0) where
    -- The list with the pointer of its last thread set to `t`.
    Threads-append :
        (ts : List ℕ) (h x : ℕ)
        → Absent t (x ∷ ts)
        → (k.thread t).parent_process ≡ p
        → (k.thread t).next_thread ≡ 0
        → Threads k p h (x ∷ ts)
        → (k.thread (last x ts)).next_thread ≡ 0
        → (k' : Kernel)
        → k'.thread
          ≡ update k.thread (last x ts) (record (k.thread (last x ts)) { next_thread = t })
        → Threads k' p h (x ∷ ts ++ t ∷ [])
    unfolding Threads Absent last
    Threads-append [] h x (ne, a) own z (e, n, o, c) end k' same =
        let v : ThreadControlBlock = record (k.thread x) { next_thread = t } in
        let at : k'.thread x ≡ v =
          ap (λ (f : ℕ → ThreadControlBlock). f x) same ∙ update_self k.thread x v in
        let at' : k'.thread t ≡ k.thread t =
          ap (λ (f : ℕ → ThreadControlBlock). f t) same ∙ update_ne k.thread x v t ne in
        (
          e,
          n,
          ap (λ (y : ThreadControlBlock). y.parent_process) at ∙ o,
          (
            ap (λ (y : ThreadControlBlock). y.next_thread) at,
            nonnull,
            ap (λ (y : ThreadControlBlock). y.parent_process) at' ∙ own,
            ap (λ (y : ThreadControlBlock). y.next_thread) at' ∙ z,
          ),
        )
    Threads-append (y ∷ ts) h x (ne, a) own z (e, n, o, d) end k' same =
        let v : ThreadControlBlock = record (k.thread (last y ts)) { next_thread = t } in
        let (b, m, q, c) = d in
        let apart : x ≢ last y ts =
          λ same'. m (sym b ∙ ap (λ i. (k.thread i).next_thread) same' ∙ end) in
        let at : k'.thread x ≡ k.thread x =
          ap (λ (f : ℕ → ThreadControlBlock). f x) same
          ∙ update_ne k.thread (last y ts) v x apart in
        (
          e,
          n,
          ap (λ (y : ThreadControlBlock). y.parent_process) at ∙ o,
          subst (λ i. Threads k' p i (y ∷ ts ++ t ∷ []))
              (sym (ap (λ (y : ThreadControlBlock). y.next_thread) at))
              (Threads-append ts (k.thread x).next_thread y a own z d end k' same),
        )

  -- The two outcomes of PspAddNewThread.
  abbrev counted : ProcessControlBlock
  counted = record (k.process p) { thread_count = u32 ((k.process p).thread_count + 1) }

  add_new_thread-first :
      (fuel t : ℕ)
      → p ≢ 0
      → (k.process p).head_thread ≡ 0
      → add_new_thread fuel p t k ≡ ok true (set_process p (record counted { head_thread = t }) k)
  unfolding add_new_thread
  add_new_thread-first fuel t n e = ground (arith, e)

  add_new_thread-behind :
      (fuel t i : ℕ)
      → p ≢ 0
      → (k.process p).head_thread ≢ 0
      → last_of fuel (λ j. (k.thread j).next_thread) (k.process p).head_thread ≡ some i
      → add_new_thread fuel p t k
        ≡ ok true (set_process p counted (set_thread i (record (k.thread i) { next_thread = t }) k))
  unfolding add_new_thread
  add_new_thread-behind fuel t i n h e = ground (arith, e)

  -- The kernel after a thread was added to `p`: the layout has it at the end of the threads of
  -- `p`, which counts one more.
  pub record ThreadAdded (t : ℕ) (pre post : Layout) (ts : List ℕ) (k' : Kernel) : Type 0 where
    pub laid_out : Processes k' k'.head_process (pre ++ (p, ts ++ t ∷ []) ∷ post)
    pub counts : (k'.process p).thread_count ≡ u32 ((k.process p).thread_count + 1)
    pub others : k'.process_count ≡ k.process_count
    pub pool_same : k'.pool ≡ k.pool
    pub thread_kept : k'.thread t ≡ k.thread t

  pub Processes-thread :
      (t i : ℕ) (ts us : List ℕ) (k' : Kernel) (v : ProcessControlBlock) (w : ThreadControlBlock)
      → k'.process ≡ update k.process p v
      → k'.thread ≡ update k.thread i w
      → (k.thread i).parent_process ≡ p
      → v.next_process ≡ (k.process p).next_process
      → Threads k' p v.head_thread us
      → (pre post : Layout) (h : ℕ) → Absent p (handles_of pre)
      → Absent p (handles_of post)
      → Processes k h (pre ++ (p, ts) ∷ post)
      → Processes k' h (pre ++ (p, us) ∷ post)
  Processes-thread t i ts us k' v w ep et own e d pre post h a b c =
      let at : k'.process p ≡ v =
        ap (λ (f : ℕ → ProcessControlBlock). f p) ep ∙ update_self k.process p v in
      Processes-replace k k' p ts us
        record {
          thread_same = λ j n.
              ap (λ (f : ℕ → ThreadControlBlock). f j) et
              ∙ update_ne k.thread i w j (λ z. n (ap (λ x. (k.thread x).parent_process) z ∙ own));
          process_same =
              λ q n. ap (λ (f : ℕ → ProcessControlBlock). f q) ep ∙ update_ne k.process p v q n;
        }
        (ap (λ (x : ProcessControlBlock). x.next_process) at ∙ e)
        (subst (λ x. Threads k' p x us) (ap (λ (x : ProcessControlBlock). x.head_thread) (sym at))
          d)
        pre post h a b c

  -- What the layout says of `p` itself.
  pub Processes-at :
      (ts : List ℕ) (pre post : Layout) (h : ℕ)
      → Processes k h (pre ++ (p, ts) ∷ post)
      → (p ≢ 0) × Threads k p (k.process p).head_thread ts
  unfolding Processes
  Processes-at ts [] post h (e, n, d, c) = (n, d)
  Processes-at ts ((q, us) ∷ pre) post h (e, n, d, c) = Processes-at ts pre post _ c

  -- If `p` stands once in the layout, PspAddNewThread puts a new thread of `p` at the end of the
  -- threads of `p` and counts it, and no other list changes.
  pub add_new_thread-ThreadAdded :
      (fuel t : ℕ) (pre post : Layout) (ts : List ℕ)
      → Processes k k.head_process (pre ++ (p, ts) ∷ post)
      → Absent p (handles_of pre)
      → Absent p (handles_of post)
      → Absent t ts
      → t ≢ 0
      → (k.thread t).parent_process ≡ p
      → (k.thread t).next_thread ≡ 0
      → length ts ≤ fuel
      → (k' : Kernel) × (add_new_thread fuel p t k ≡ ok true k') × ThreadAdded t pre post ts k'
  unfolding Threads
  add_new_thread-ThreadAdded fuel t pre post [] c a b fresh tn own z le =
      let (pn, d) = Processes-at [] pre post k.head_process c in
      let v : ProcessControlBlock = record counted { head_thread = t } in
      let k' = set_process p v k in
      let at : k'.process p ≡ v = update_self k.process p v in
      (
        k',
        add_new_thread-first fuel t pn d,
        record {
          laid_out =
              Processes-replace k k' p [] (t ∷ [])
                record {
                  thread_same = λ j n. refl;
                  process_same = λ q n. update_ne k.process p v q n;
                }
                (ap (λ (x : ProcessControlBlock). x.next_process) at)
                (ap (λ (x : ProcessControlBlock). x.head_thread) at, tn, own, z) pre post
                k.head_process a b c;
          counts = ap (λ (x : ProcessControlBlock). x.thread_count) at;
          others = refl;
          pool_same = refl;
          thread_kept = refl;
        },
      )
  add_new_thread-ThreadAdded fuel t pre post (x ∷ ts) c a b fresh tn own z le =
      let (pn, d) = Processes-at (x ∷ ts) pre post k.head_process c in
      let (f, end, o) = last_of-Threads ts fuel (k.process p).head_thread x d (omega arith) in
      let w : ThreadControlBlock = record (k.thread (last x ts)) { next_thread = t } in
      let k' = set_process p counted (set_thread (last x ts) w k) in
      let full : (k.process p).head_thread ≢ 0 = λ e. d.1 (sym d.0 ∙ e) in
      (
        k',
        add_new_thread-behind fuel t (last x ts) pn full f,
        record {
          laid_out =
              Processes-thread t (last x ts) (x ∷ ts) (x ∷ ts ++ t ∷ []) k' counted w refl refl o
                refl (Threads-append t tn ts (k.process p).head_thread x fresh own z d end k' refl)
                pre post k.head_process a b c;
          counts =
              ap (λ (y : ProcessControlBlock). y.thread_count) (update_self k.process p counted);
          others = refl;
          pool_same = refl;
          thread_kept = update_ne k.thread (last x ts) w t (Absent-last t ts x fresh);
        },
      )
