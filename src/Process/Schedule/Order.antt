-- ===== src/Process/Schedule/Order.antt =====
-- The scheduler goes round the threads of all the processes in the order of the lists.
use mylysos.Base.{
  ℕ, zero, suc, ◌+◌, ◌≤◌, ◌<◌, ◌≡◌, ◌≢◌, refl, sym, ap, ◌∙◌, Option, some, List, [], ◌∷◌, ◌++◌,
  length, arith,
}
use mylysos.Process.{Kernel}
use mylysos.Process.Layout.{Layout, threads_of, Threads, Processes}
use mylysos.Process.Schedule.{find_process, thread_after}

abbrev pub head_or : Option ℕ → List ℕ → Option ℕ
head_or o [] = o
head_or o (x ∷ xs) = some x

pub cons_injective : {x y : ℕ} {xs ys : List ℕ} → x ∷ xs ≡ y ∷ ys → (x ≡ y) × (xs ≡ ys)
cons_injective {x} {y} {xs} {ys} e = (ground (arith, e), ground (arith, e))

module _ (k : Kernel) where
  find_process-skip :
      (fuel p : ℕ)
      → p ≢ 0
      → (k.process p).head_thread ≡ 0
      → find_process (suc fuel) k p ≡ find_process fuel k (k.process p).next_process
  unfolding find_process
  find_process-skip fuel p ne e = ground arith

  find_process-some :
      (fuel p t : ℕ)
      → p ≢ 0
      → (k.process p).head_thread ≡ t
      → t ≢ 0
      → find_process (suc fuel) k p ≡ some t
  unfolding find_process
  find_process-some fuel p t ne e tn = ground arith

  -- Behind the last process the search starts again with the first.
  pub find_process-wrap :
      (fuel : ℕ) → k.head_process ≢ 0 → find_process fuel k 0 ≡ find_process fuel k k.head_process
  unfolding find_process
  find_process-wrap zero ne = refl
  find_process-wrap (suc fuel) ne = ground arith

  -- The search over the processes from `h` on.
  pub find_process-Processes :
      (l : Layout) (fuel h : ℕ)
      → Processes k h l
      → length l < fuel
      → (f : ℕ) × (fuel ≤ f + length l)
        × (find_process fuel k h ≡ head_or (find_process f k 0) (threads_of l))
  unfolding Processes Threads threads_of
  find_process-Processes [] fuel h e lt = (fuel, omega arith, ap (find_process fuel k) e)
  find_process-Processes ((p, ts) ∷ l) zero h c lt = absurd (omega arith)
  find_process-Processes ((p, []) ∷ l) (suc fuel) h (e, ne, z, c) lt =
      let (f, le, r) = find_process-Processes l fuel (k.process p).next_process c (omega arith) in
      (f, omega arith, ap (find_process (suc fuel) k) e ∙ find_process-skip fuel p ne z ∙ r)
  find_process-Processes ((p, t ∷ ts) ∷ l) (suc fuel) h (e, ne, (a, n, o, d), c) lt =
      (suc fuel, omega arith, ap (find_process (suc fuel) k) e ∙ find_process-some fuel p t ne a n)

  thread_after-next :
      (fuel t a : ℕ) → (k.thread t).next_thread ≡ a → a ≢ 0 → thread_after fuel k t ≡ some a
  unfolding thread_after
  thread_after-next fuel t a e ne = ground arith

  thread_after-last :
      (fuel t p : ℕ)
      → (k.thread t).next_thread ≡ 0
      → (k.thread t).parent_process ≡ p
      → thread_after fuel k t ≡ find_process fuel k (k.process p).next_process
  unfolding thread_after
  thread_after-last fuel t p e o = ground arith

  -- The thread behind `t` in the order of the lists; behind the last, what the search from the
  -- first process on finds.
  module _ (fuel : ℕ) where
    abbrev pub After : Layout → ℕ → List ℕ → Type 0
    After l t after =
        (f : ℕ) × (fuel ≤ f + length l)
        × (thread_after fuel k t ≡ head_or (find_process f k 0) after)

    After-Threads :
        (p : ℕ) (l : Layout)
        → Processes k (k.process p).next_process l
        → length l < fuel
        → ((before after : List ℕ) (t : ℕ) → threads_of l ≡ before ++ t ∷ after → After l t after)
        → (ts : List ℕ) (h : ℕ) → Threads k p h ts
        → (before after : List ℕ) (t : ℕ) → ts ++ threads_of l ≡ before ++ t ∷ after
        → After l t after
    unfolding Threads
    After-Threads p l c lt rest [] h d before after t e = rest before after t e
    After-Threads p l c lt rest (x ∷ []) h (a, n, o, z) [] after t e =
        let (same, tail) = cons_injective e in
        let (f, le, r) = find_process-Processes l fuel (k.process p).next_process c lt in
        (
          f,
          le,
          ap (thread_after fuel k) (sym same)
              ∙ thread_after-last fuel x p z o
              ∙ r
              ∙ ap (head_or (find_process f k 0)) tail,
        )
    After-Threads p l c lt rest (x ∷ y ∷ ts) h (a, n, o, d) [] after t e =
        let (b, m, q, z) = d in
        let (same, tail) = cons_injective e in
        (
          fuel,
          omega arith,
          ap (thread_after fuel k) (sym same)
              ∙ thread_after-next fuel x y b m
              ∙ ap (head_or (find_process fuel k 0)) tail,
        )
    After-Threads p l c lt rest (x ∷ ts) h (a, n, o, d) (b ∷ before) after t e =
        After-Threads p l c lt rest ts (k.thread x).next_thread d before after t
          (cons_injective e).1

    pub After-Processes :
        (l : Layout) (h : ℕ)
        → Processes k h l
        → length l ≤ fuel
        → (before after : List ℕ) (t : ℕ) → threads_of l ≡ before ++ t ∷ after
        → After l t after
    unfolding Processes threads_of
    After-Processes [] h c lt [] after t e = absurd (ground (arith, e))
    After-Processes [] h c lt (b ∷ before) after t e = absurd (ground (arith, e))
    After-Processes ((p, ts) ∷ l) h (e', ne, d, c) lt before after t e =
        let (f, le, r) =
          After-Threads p l c (omega arith)
            (After-Processes l (k.process p).next_process c (omega arith)) ts
            (k.process p).head_thread d before after t e in
        (f, omega arith, r)
