-- ===== src/Process/Cut/Drop.antt =====
-- The memory that the thread cutter gives back.
use mylysos.Base.{
  ℕ, ◌≤◌, ◌<◌, ◌≡◌, ◌≢◌, ◌⊎◌, inl, inr, sym, List, ◌∷◌, ◌++◌, arith, true, ok, sub32,
}
use mylysos.Memory.{MemBlkManager}
use mylysos.Memory.Valid.{IsValid}
use mylysos.Process.{Kernel, set_process, free_memory}
use mylysos.Process.Release.{free_memory-Released}
use mylysos.Process.Layout.{Layout, threads_of, handles_of, Absent}
use mylysos.Process.Layout.Every.{
  Every, Every-append, Every-join, Every-map, Every-both, Every-Absent,
}
use mylysos.Process.Create.Valid.{IsLive, AllLive}
use mylysos.Process.Cut.{unlink_thread, drop_thread, cut_thread}

-- A stack below 2 MB is that of a user program, another one is the pool's.
abbrev pub StackOf : Kernel → ℕ → Type 0
StackOf k t =
    ((k.thread t).stack_base < 0x00200000)
    ⊎ (IsLive k.pool (k.thread t).stack_base
        × ((k.thread t).stack_base ≢ t)
        × (0x00200000 ≤ (k.thread t).stack_base))

-- The memory of a thread belongs to nothing else that the layout holds.
pub record Owned (k : Kernel) (t : ℕ) (l : Layout) : Type 0 where
  pub stack : StackOf k t
  pub live : IsLive k.pool t
  pub no_process : Absent t (handles_of l)
  pub no_thread : Absent t (threads_of l)
  pub stack_no_process : Absent (k.thread t).stack_base (handles_of l)
  pub stack_no_thread : Absent (k.thread t).stack_base (threads_of l)

-- The pool behind the calls that free the stack and the thread.
pub record Dropped (m : MemBlkManager) (t stack : ℕ) (m' : MemBlkManager) : Type 0 where
  pub valid : IsValid m'
  pub others : (h : ℕ) → h ≢ t → h ≢ stack → IsLive m h → IsLive m' h
  pub gone : ¬ IsLive m' t

module _ (k : Kernel) (p t : ℕ) where
  abbrev pub counted_down : Kernel
  counted_down =
      set_process p (record (k.process p) { thread_count = sub32 (k.process p).thread_count 1 }) k

  drop-both :
      (m m' : MemBlkManager)
      → 0x00200000 ≤ (k.thread t).stack_base
      → free_memory (k.thread t).stack_base counted_down ≡ ok tt (record counted_down { pool = m })
      → free_memory t (record counted_down { pool = m }) ≡ ok tt (record counted_down { pool = m' })
      → drop_thread p t k ≡ ok tt (record counted_down { pool = m' })
  unfolding drop_thread
  drop-both m m' h e f = ground (arith, h, e, f)

  drop-one :
      (m' : MemBlkManager)
      → (k.thread t).stack_base < 0x00200000
      → free_memory t counted_down ≡ ok tt (record counted_down { pool = m' })
      → drop_thread p t k ≡ ok tt (record counted_down { pool = m' })
  unfolding drop_thread
  drop-one m' h f = ground (arith, h, f)

  pub drop_thread-Dropped :
      IsValid k.pool
      → IsLive k.pool t
      → StackOf k t
      → (m' : MemBlkManager) × (drop_thread p t k ≡ ok tt (record counted_down { pool = m' }))
        × Dropped k.pool t (k.thread t).stack_base m'
  drop_thread-Dropped v l (inl low) =
      let (m', r) = free_memory-Released counted_down t v l in
      (
        m',
        drop-one m' low r.run,
        record { valid = r.valid; others = λ h n _ x. r.others h n x; gone = r.gone },
      )
  drop_thread-Dropped v l (inr (s, n, high)) =
      let stack = (k.thread t).stack_base in
      let (m, q) = free_memory-Released counted_down stack v s in
      let (m', r) =
        free_memory-Released (record counted_down { pool = m }) t q.valid
          (q.others t (λ e. n (sym e)) l) in
      (
        m',
        drop-both m m' high q.run r.run,
        record {
          valid = r.valid;
          others = λ h a b x. r.others h a (q.others h b x);
          gone = r.gone;
        },
      )

  pub cut-enter :
      (fuel : ℕ) (k' : Kernel)
      → t ≢ 0
      → p ≢ 0
      → (k.thread t).parent_process ≡ p
      → k.current_thread ≢ 0
      → p ≢ (k.thread k.current_thread).parent_process
      → unlink_thread fuel p t k ≡ ok true k'
      → cut_thread fuel t k ≡ drop_thread p t k'
  unfolding cut_thread
  cut-enter fuel k' n m o c d e = ground (arith, n, m, o, c, d, e)

pub Every-drop :
    (P : ℕ → Type 0) (xs : List ℕ) (t : ℕ) (ys : List ℕ)
    → Every P (xs ++ t ∷ ys)
    → Every P (xs ++ ys)
unfolding Every
Every-drop P xs t ys e = let (a, b) = Every-append P xs (t ∷ ys) e in Every-join P xs ys a b.1

pub AllLive-Dropped :
    (m m' : MemBlkManager) (t stack : ℕ) (hs : List ℕ)
    → Dropped m t stack m'
    → Absent t hs
    → Absent stack hs
    → AllLive m hs
    → AllLive m' hs
AllLive-Dropped m m' t stack hs d a b l =
    Every-map (λ h. ((t ≢ h) × (stack ≢ h)) × IsLive m h) (IsLive m') hs
      (λ h ((n, o), x). d.others h (λ e. n (sym e)) (λ e. o (sym e)) x)
      (Every-both _ _ hs (Every-both _ _ hs (Every-Absent t hs a) (Every-Absent stack hs b)) l)
