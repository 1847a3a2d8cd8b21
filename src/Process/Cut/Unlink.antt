-- ===== src/Process/Cut/Unlink.antt =====
-- A thread taken out of the list of its process.
use mathlib.Core.Path.{subst}
use mylysos.Base.{
  ℕ, ◌≤◌, ◌<◌, ◌≡◌, ◌≢◌, sym, ap, ◌∙◌, List, [], ◌∷◌, ◌++◌, length, arith, true, update,
  update_self, update_ne, ok,
}
use mylysos.Process.{Kernel, ThreadControlBlock, set_thread, set_process}
use mylysos.Process.Layout.{Threads, Absent}
use mylysos.Process.Layout.Append.{last}
use mylysos.Process.Create.Valid.{Distinct}
use mylysos.Process.Cut.{link_of, find_link, unlink_thread}
use mylysos.Process.Cut.Thread.{Threads-Distinct, find_link-Threads}

-- The parts of a list without repetitions.
Absent-parts :
    (a : ℕ) (xs : List ℕ) (t : ℕ) (ys : List ℕ)
    → Absent a (xs ++ t ∷ ys)
    → (a ≢ t) × Absent a xs × Absent a ys
unfolding Absent
Absent-parts a [] t ys h = (h.0, tt, h.1)
Absent-parts a (x ∷ xs) t ys (n, h) = let (e, f, g) = Absent-parts a xs t ys h in (e, (n, f), g)

pub Distinct-parts :
    (xs : List ℕ) (t : ℕ) (ys : List ℕ) → Distinct (xs ++ t ∷ ys) → Absent t xs × Absent t ys
unfolding Distinct Absent
Distinct-parts [] t ys d = (tt, d.0)
Distinct-parts (x ∷ xs) t ys (a, d) =
    let (e, f, g) = Absent-parts x xs t ys a in
    let (b, c) = Distinct-parts xs t ys d in ((λ z. e (sym z), b), c)

pub last-Absent : (a x : ℕ) (xs : List ℕ) → Absent a (x ∷ xs) → a ≢ last x xs
unfolding Absent last
last-Absent a x [] h = h.0
last-Absent a x (y ∷ xs) h = last-Absent a y xs h.1

-- A thread of a list.
pub Threads-at :
    (k : Kernel) (p : ℕ) (xs : List ℕ) (t : ℕ) (ys : List ℕ) (h : ℕ)
    → Threads k p h (xs ++ t ∷ ys)
    → (t ≢ 0) × ((k.thread t).parent_process ≡ p)
unfolding Threads
Threads-at k p [] t ys h (e, n, o, c) = (n, o)
Threads-at k p (x ∷ xs) t ys h (e, n, o, c) = Threads-at k p xs t ys _ c

-- The threads of `p` after the change of one link.
module _ (k : Kernel) (p : ℕ) (k' : Kernel) where
  Threads-except :
      (i : ℕ)
      → ((j : ℕ) → j ≢ i → k'.thread j ≡ k.thread j)
      → (ts : List ℕ) (h : ℕ) → Absent i ts
      → Threads k p h ts
      → Threads k' p h ts
  unfolding Threads Absent
  Threads-except i same [] h a c = c
  Threads-except i same (t ∷ ts) h (n, a) (e, m, o, c) =
      let kept = same t (λ z. n (sym z)) in
      (
        e,
        m,
        ap (λ (x : ThreadControlBlock). x.parent_process) kept ∙ o,
        subst (λ x. Threads k' p x ts) (ap (λ (x : ThreadControlBlock). x.next_thread) (sym kept))
            (Threads-except i same ts _ a c),
      )

  -- The link of the thread in front of `t` leads to the one behind it.
  record Skips (t i : ℕ) : Type 0 where
    link : k'.thread i ≡ record (k.thread i) { next_thread = (k.thread t).next_thread }
    others : (j : ℕ) → j ≢ i → k'.thread j ≡ k.thread j

  Threads-skip :
      (x : ℕ) (xs : List ℕ) (t : ℕ) (ys : List ℕ) (h : ℕ)
      → Skips t (last x xs)
      → Distinct (x ∷ (xs ++ t ∷ ys))
      → Threads k p h (x ∷ (xs ++ t ∷ ys))
      → Threads k' p h (x ∷ (xs ++ ys))
  unfolding Threads Absent last Distinct
  Threads-skip x [] t ys h s (a, d) (e, n, o, (f, m, q, c)) = (
    e,
    n,
    ap (λ (y : ThreadControlBlock). y.parent_process) s.link ∙ o,
    subst (λ y. Threads k' p y ys) (ap (λ (y : ThreadControlBlock). y.next_thread) (sym s.link))
        (Threads-except x s.others ys _ a.1 c),
  )
  Threads-skip x (y ∷ xs) t ys h s (a, d) (e, n, o, c) =
      let (z, a', b) = Absent-parts x (y ∷ xs) t ys a in
      let kept = s.others x (last-Absent x y xs a') in
      (
        e,
        n,
        ap (λ (w : ThreadControlBlock). w.parent_process) kept ∙ o,
        subst (λ w. Threads k' p w (y ∷ (xs ++ ys)))
            (ap (λ (w : ThreadControlBlock). w.next_thread) (sym kept))
            (Threads-skip y xs t ys _ s d c),
      )

module _ (k : Kernel) (p : ℕ) where
  unlink-found :
      (fuel t prev : ℕ)
      → 2 ≤ (k.process p).thread_count
      → find_link fuel
          (λ i. (k.thread i).next_thread)
          t
          (k.process p).head_thread
          (k.process p).head_thread
        ≡ link_of prev
      → unlink_thread fuel p t k
        ≡ ok true
            (set_thread prev (record (k.thread prev) { next_thread = (k.thread t).next_thread }) k)
  unfolding unlink_thread
  unlink-found fuel t prev c e = ground (arith, c, e)

  unlink-only :
      (fuel t : ℕ)
      → (k.process p).thread_count ≡ 1
      → unlink_thread fuel p t k
        ≡ ok true (set_process p (record (k.process p) { head_thread = 0 }) k)
  unfolding unlink_thread
  unlink-only fuel t c = ground (arith, c)

  -- The outcome of the search and the change, for a thread of the list.
  pub unlink_thread-last :
      (xs ys : List ℕ) (fuel t : ℕ)
      → Threads k p (k.process p).head_thread (xs ++ t ∷ ys)
      → 2 ≤ (k.process p).thread_count
      → length xs < fuel
      → let i = last (k.process p).head_thread xs in
        unlink_thread fuel p t k
        ≡ ok true (set_thread i (record (k.thread i) { next_thread = (k.thread t).next_thread }) k)
  unlink_thread-last xs ys fuel t c two lt =
      let d = Distinct-parts xs t ys (Threads-Distinct k p (xs ++ t ∷ ys) _ c) in
      unlink-found fuel t _ two (find_link-Threads k p xs ys fuel t _ _ c d.0 lt)

  -- The list behind it: the thread is gone, unless it is the first one.
  pub unlinked-Threads :
      (x : ℕ) (xs : List ℕ) (t : ℕ) (ys : List ℕ) (h : ℕ) (k' : Kernel)
      → Threads k p h (x ∷ (xs ++ t ∷ ys))
      → k'.thread
        ≡ update k.thread
            (last x xs)
            (record (k.thread (last x xs)) { next_thread = (k.thread t).next_thread })
      → Threads k' p h (x ∷ (xs ++ ys))
  unlinked-Threads x xs t ys h k' c e =
      let i = last x xs in
      let w = record (k.thread i) { next_thread = (k.thread t).next_thread } in
      Threads-skip k p k' x xs t ys h
        record {
          link = ap (λ (f : ℕ → ThreadControlBlock). f i) e ∙ update_self k.thread i w;
          others = λ j n. ap (λ (f : ℕ → ThreadControlBlock). f j) e ∙ update_ne k.thread i w j n;
        }
        (Threads-Distinct k p (x ∷ (xs ++ t ∷ ys)) h c) c
