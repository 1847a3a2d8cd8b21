-- ===== src/Process/Cut/Call.antt =====
-- The thread cutter on a thread behind the first of its process.
use mylysos.Base.{ℕ, ◌≡◌, List, ◌∷◌, ◌++◌, sub32}
use mylysos.Memory.{MemBlkManager}
use mylysos.Process.{Kernel, set_thread}
use mylysos.Process.Layout.{Layout}
use mylysos.Process.Layout.Append.{last}
use mylysos.Process.Create.Valid.{KernelValid, IsLive}
use mylysos.Process.Cut.Drop.{counted_down}

-- A round of the cutter for the thread `t` of `p` has made the layout `l`: its memory is free, and
-- the process counts one thread less.
pub record ThreadCut (k : Kernel) (p t : ℕ) (l : Layout) (k' : Kernel) : Type 0 where
  pub valid : KernelValid k' l
  pub gone : ¬ IsLive k'.pool t
  pub counts : (k'.process p).thread_count ≡ sub32 (k.process p).thread_count 1

module _ (k : Kernel) (p t : ℕ) (pre post : Layout) (x : ℕ) (xs ys : List ℕ) where
  abbrev before : Layout
  before = pre ++ (p, x ∷ (xs ++ t ∷ ys)) ∷ post

  abbrev after : Layout
  after = pre ++ (p, x ∷ (xs ++ ys)) ∷ post

  -- The kernel with `t` unlinked.
  abbrev unlinked : Kernel
  unlinked =
      let i = last x xs in
      set_thread i (record (k.thread i) { next_thread = (k.thread t).next_thread }) k

  abbrev cut_kernel : MemBlkManager → Kernel
  cut_kernel m' = record (counted_down unlinked p t) { pool = m' }
