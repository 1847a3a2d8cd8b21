-- ===== src/Process/Layout.antt =====
-- What the linked lists of the process manager hold, and when a change leaves them alone.
pub mod Append
pub mod AddProcess
pub mod Every
use mylysos.Base.{
  ℕ, zero, suc, ◌+◌, ◌≤◌, ◌<◌, ◌≡◌, ◌≢◌, refl, sym, ap, ◌∙◌, List, [], ◌∷◌, ◌++◌, Option, none,
  some, length, arith,
}
use mathlib.Core.Path.{subst}
use mylysos.Process.{Kernel, ThreadControlBlock, ProcessControlBlock, last_of}

-- The handles of the processes, each with those of its threads, in the order of the lists.
abbrev pub Layout : Type 0
Layout = List (ℕ × List ℕ)

unfoldable pub threads_of : Layout → List ℕ
threads_of [] = []
threads_of ((p, ts) ∷ l) = ts ++ threads_of l

-- The list of threads that begins with the handle `h` holds exactly `ts`, threads of `p`.
unfoldable pub Threads : Kernel → (p h : ℕ) → List ℕ → Type 0
Threads k p h [] = h ≡ 0
Threads k p h (t ∷ ts) =
    (h ≡ t) × (t ≢ 0) × ((k.thread t).parent_process ≡ p) × Threads k p (k.thread t).next_thread ts

-- The list of processes that begins with the handle `h` is laid out as `l`.
unfoldable pub Processes : Kernel → (h : ℕ) → Layout → Type 0
Processes k h [] = h ≡ 0
Processes k h ((p, ts) ∷ l) =
    (h ≡ p)
    × (p ≢ 0)
    × Threads k p (k.process p).head_thread ts
    × Processes k (k.process p).next_process l

unfoldable pub handles_of : Layout → List ℕ
handles_of [] = []
handles_of ((p, ts) ∷ l) = p ∷ handles_of l

-- The handle is not in the list.
unfoldable pub Absent : ℕ → List ℕ → Type 0
Absent x [] = Unit
Absent x (y ∷ ys) = (x ≢ y) × Absent x ys

-- A layout with a process behind it.
pub handles_of-snoc : (l : Layout) (p : ℕ) → handles_of (l ++ (p, []) ∷ []) ≡ handles_of l ++ p ∷ []
unfolding handles_of
handles_of-snoc [] p = refl
handles_of-snoc ((q, ts) ∷ l) p = ap (λ hs. q ∷ hs) (handles_of-snoc l p)

pub threads_of-snoc : (l : Layout) (p : ℕ) → threads_of (l ++ (p, []) ∷ []) ≡ threads_of l
unfolding threads_of
threads_of-snoc [] p = refl
threads_of-snoc ((q, ts) ∷ l) p = ap (λ hs. ts ++ hs) (threads_of-snoc l p)

module _ (k k' : Kernel) where
  -- Lists of threads whose structures stay as they are.
  pub Threads-frame :
      (p : ℕ)
      → ((t : ℕ) → (k.thread t).parent_process ≡ p → k'.thread t ≡ k.thread t)
      → (ts : List ℕ) (h : ℕ) → Threads k p h ts
      → Threads k' p h ts
  unfolding Threads
  Threads-frame p same [] h e = e
  Threads-frame p same (t ∷ ts) h (e, n, o, c) =
      let kept : k'.thread t ≡ k.thread t = same t o in
      (
        e,
        n,
        ap (λ (x : ThreadControlBlock). x.parent_process) kept ∙ o,
        Threads-frame p same ts _ (
            subst (λ x. Threads k p x ts)
              (ap (λ (x : ThreadControlBlock). x.next_thread) (sym kept)) c),
      )

  module _ (p : ℕ) where
    -- Only the process `p` and threads of it change.
    pub record Only : Type 0 where
      pub thread_same : (t : ℕ) → (k.thread t).parent_process ≢ p → k'.thread t ≡ k.thread t
      pub process_same : (q : ℕ) → q ≢ p → k'.process q ≡ k.process q

    pub Processes-frame :
        Only → (l : Layout) (h : ℕ) → Absent p (handles_of l) → Processes k h l → Processes k' h l
    unfolding Processes Absent handles_of
    Processes-frame o [] h a e = e
    Processes-frame o ((q, ts) ∷ l) h (ne, a) (e, n, d, c) =
        let kept : k'.process q ≡ k.process q = o.process_same q (λ z. ne (sym z)) in
        (
          e,
          n,
          subst (λ x. Threads k' q x ts)
              (ap (λ (x : ProcessControlBlock). x.head_thread) (sym kept))
              (Threads-frame q (λ t own. o.thread_same t (λ z. ne (sym z ∙ own))) ts _ d),
          subst (λ x. Processes k' x l)
              (ap (λ (x : ProcessControlBlock). x.next_process) (sym kept))
              (Processes-frame o l _ a c),
        )

    -- The list of threads of `p` changes.
    pub Processes-replace :
        (ts us : List ℕ)
        → Only
        → (k'.process p).next_process ≡ (k.process p).next_process
        → Threads k' p (k'.process p).head_thread us
        → (pre post : Layout) (h : ℕ) → Absent p (handles_of pre)
        → Absent p (handles_of post)
        → Processes k h (pre ++ (p, ts) ∷ post)
        → Processes k' h (pre ++ (p, us) ∷ post)
    unfolding Processes Absent handles_of
    Processes-replace ts us o e d [] post h a b (i, n, d', c) =
        (i, n, d, subst (λ x. Processes k' x post) (sym e) (Processes-frame o post _ b c))
    Processes-replace ts us o e d ((q, vs) ∷ pre) post h (ne, a) b (i, n, d', c) =
        let kept : k'.process q ≡ k.process q = o.process_same q (λ z. ne (sym z)) in
        (
          i,
          n,
          subst (λ x. Threads k' q x vs)
              (ap (λ (x : ProcessControlBlock). x.head_thread) (sym kept))
              (Threads-frame q (λ t own. o.thread_same t (λ z. ne (sym z ∙ own))) vs _ d'),
          subst (λ x. Processes k' x (pre ++ (p, us) ∷ post))
              (ap (λ (x : ProcessControlBlock). x.next_process) (sym kept))
              (Processes-replace ts us o e d pre post _ a b c),
        )

  -- Nothing in the two stores changes.
  pub Processes-same :
      k'.thread ≡ k.thread
      → k'.process ≡ k.process
      → (l : Layout) (h : ℕ) → Processes k h l
      → Processes k' h l
  unfolding Processes
  Processes-same et ep [] h e = e
  Processes-same et ep ((q, ts) ∷ l) h (e, n, d, c) =
      let kept : k'.process q ≡ k.process q = ap (λ (f : ℕ → ProcessControlBlock). f q) ep in
      (
        e,
        n,
        subst (λ x. Threads k' q x ts) (ap (λ (x : ProcessControlBlock). x.head_thread) (sym kept))
            (Threads-frame q (λ t _. ap (λ (f : ℕ → ThreadControlBlock). f t) et) ts _ d),
        subst (λ x. Processes k' x l) (ap (λ (x : ProcessControlBlock). x.next_process) (sym kept))
            (Processes-same et ep l _ c),
      )
