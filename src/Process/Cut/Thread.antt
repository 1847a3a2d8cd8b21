-- ===== src/Process/Cut/Thread.antt =====
-- What the thread cutter does to the lists.
use mylysos.Base.{
  ℕ, zero, suc, ◌<◌, ◌≡◌, ◌≢◌, refl, sym, ap, ◌∙◌, List, [], ◌∷◌, ◌++◌, length, arith,
}
use mylysos.Process.{Kernel}
use mylysos.Process.Layout.{Threads, Absent}
use mylysos.Process.Layout.Append.{last}
use mylysos.Process.Create.Valid.{Distinct}
use mylysos.Process.Cut.{link_of, find_link}

module _ (k : Kernel) (p : ℕ) where
  -- A list is determined by its head, so that no thread stands in it twice.
  same_length :
      (ts us : List ℕ) (h g : ℕ)
      → h ≡ g
      → Threads k p h ts
      → Threads k p g us
      → length ts ≡ length us
  unfolding Threads
  same_length [] [] h g e c d = refl
  same_length [] (u ∷ us) h g e c (i, n, o, d) = absurd (n (sym i ∙ sym e ∙ c))
  same_length (t ∷ ts) [] h g e (i, n, o, c) d = absurd (n (sym i ∙ e ∙ d))
  same_length (t ∷ ts) (u ∷ us) h g e (i, n, o, c) (j, m, q, d) =
      ap suc (same_length ts us _ _ (ap (λ x. (k.thread x).next_thread) (sym i ∙ e ∙ j)) c d)

  shorter_list :
      (ts : List ℕ) (h x : ℕ) (us : List ℕ)
      → Threads k p h ts
      → Threads k p x us
      → length ts < length us
      → Absent x ts
  unfolding Threads Absent
  shorter_list [] h x us c d lt = tt
  shorter_list (t ∷ ts) h x us (i, n, o, c) d lt = (
    λ e. omega (arith, lt, same_length (t ∷ ts) us h x (i ∙ sym e) (i, n, o, c) d),
    shorter_list ts _ x us c d (omega (arith, lt)),
  )

  pub Threads-Distinct : (ts : List ℕ) (h : ℕ) → Threads k p h ts → Distinct ts
  unfolding Threads Distinct
  Threads-Distinct [] h c = tt
  Threads-Distinct (t ∷ ts) h (i, n, o, c) =
      (shorter_list ts _ t (t ∷ ts) c (refl, n, o, c) (omega arith), Threads-Distinct ts _ c)

  link-found :
      (fuel t prev h : ℕ)
      → h ≡ t
      → find_link (suc fuel) (λ i. (k.thread i).next_thread) t prev h ≡ link_of prev
  unfolding find_link
  link-found fuel t prev h e = ground (arith, e)

  link-next :
      (fuel t prev h : ℕ)
      → h ≢ t
      → h ≢ 0
      → (k.thread h).next_thread ≢ 0
      → find_link (suc fuel) (λ i. (k.thread i).next_thread) t prev h
        ≡ find_link fuel (λ i. (k.thread i).next_thread) t h (k.thread h).next_thread
  unfolding find_link
  link-next fuel t prev h e n m = ground (arith, e, n, m)

  nonempty_head : (xs ys : List ℕ) (t h : ℕ) → Threads k p h (xs ++ t ∷ ys) → h ≢ 0
  unfolding Threads
  nonempty_head [] ys t h c z = c.1 (sym c.0 ∙ z)
  nonempty_head (x ∷ xs) ys t h c z = c.1 (sym c.0 ∙ z)

  -- The loop stops with the thread in front of the sought one, or `prev` if there is none.
  pub find_link-Threads :
      (xs ys : List ℕ) (fuel t prev h : ℕ)
      → Threads k p h (xs ++ t ∷ ys)
      → Absent t xs
      → length xs < fuel
      → find_link fuel (λ i. (k.thread i).next_thread) t prev h ≡ link_of (last prev xs)
  unfolding Threads Absent last
  find_link-Threads xs ys zero t prev h c a lt = absurd (omega arith)
  find_link-Threads [] ys (suc fuel) t prev h c a lt = link-found fuel t prev h c.0
  find_link-Threads (x ∷ xs) ys (suc fuel) t prev h (i, n, o, c) (ne, a) lt =
      let m = nonempty_head xs ys t _ c in
      ap (find_link (suc fuel) (λ i. (k.thread i).next_thread) t prev) i
      ∙ link-next fuel t prev x (λ e. ne (sym e)) n m
      ∙ find_link-Threads xs ys fuel t x _ c a (omega (arith, lt))
