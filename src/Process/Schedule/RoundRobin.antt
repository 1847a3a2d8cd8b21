-- ===== src/Process/Schedule/RoundRobin.antt =====
-- PspFindNextThreadScheduled is round robin: it returns the first thread behind the current one
-- that can run, in the cyclic order of all the threads.
use mathlib.Core.Path.{subst}
use mylysos.Base.{
  ℕ, zero, suc, ◌*◌, ◌≤◌, ◌<◌, ◌≡◌, ◌≢◌, refl, sym, ap, ◌∙◌, inl, inr, true, false, Option, none,
  some, List, [], ◌∷◌, ◌++◌, length, arith, if◌then◌else◌, ok, hung, length-append, Bool-cases,
}
use mathlib.Core.List.{append_assoc, append-nil}
use mylysos.Process.{Kernel}
use mylysos.Process.Schedule.{
  is_runnable, find_process, thread_after, find_thread, find_next_thread_scheduled,
}
use mylysos.Process.Layout.{Layout, threads_of, Processes}
use mylysos.Process.Schedule.Order.{
  head_or, cons_injective, After-Processes, find_process-wrap, find_process-Processes,
}

-- From `t` on, the threads come round in the order `r`, `t` itself at the end.
pub record Round (l : Layout) (t : ℕ) (r : List ℕ) : Type 0 where
  pub before : List ℕ
  pub after : List ℕ
  pub at : threads_of l ≡ before ++ t ∷ after
  pub order : r ≡ after ++ (before ++ t ∷ [])

-- The first thread of a list that can run.
pub first_runnable : Kernel → List ℕ → Option ℕ
first_runnable k [] = none
first_runnable k (t ∷ ts) = if is_runnable (k.thread t).status then some t else first_runnable k ts

module _ (k : Kernel) (l : Layout) (fuel : ℕ) where
  -- The lists are laid out more `l`, and a round of the inner loop has enough fuel.
  pub record Ready : Type 0 where
    pub laid_out : Processes k k.head_process l
    pub some_process : k.head_process ≢ 0
    pub enough : 2 * length l < fuel

  Round-in_list :
      (t x a : ℕ) (xs before more : List ℕ)
      → threads_of l ≡ before ++ t ∷ a ∷ more
      → x ∷ xs ≡ a ∷ more ++ (before ++ t ∷ [])
      → Round l x (xs ++ x ∷ [])
  Round-in_list t x a xs before more at order =
      let (same, tail) = cons_injective order in
      record {
        before = before ++ t ∷ [];
        after = more;
        at =
            at
            ∙ sym (append_assoc before (t ∷ []) (a ∷ more))
            ∙ ap (λ y. (before ++ t ∷ []) ++ y ∷ more) (sym same);
        order = ap (λ ys. ys ++ x ∷ []) tail ∙ append_assoc more (before ++ t ∷ []) (x ∷ []);
      }

  -- One round of the loop goes on to the next thread of the round.
  thread_after-Round :
      (t x : ℕ) (xs : List ℕ)
      → Ready
      → Round l t (x ∷ xs)
      → (thread_after fuel k t ≡ some x) × Round l x (xs ++ x ∷ [])
  thread_after-Round t x xs h r = go r.after r.at r.order
    where
      go :
          (after : List ℕ)
          → threads_of l ≡ r.before ++ t ∷ after
          → x ∷ xs ≡ after ++ (r.before ++ t ∷ [])
          → (thread_after fuel k t ≡ some x) × Round l x (xs ++ x ∷ [])
      go [] at order =
          let (f, le, e) =
            After-Processes k fuel l k.head_process h.laid_out (omega (arith, h.enough)) r.before []
              t at in
          let (f', le', e') =
            find_process-Processes k l f k.head_process h.laid_out (omega (arith, h.enough)) in
          (
            e
                ∙ find_process-wrap k f h.some_process
                ∙ e'
                ∙ ap (head_or (find_process f' k 0)) (at ∙ sym order),
            record { before = []; after = xs; at = at ∙ sym order; order = refl },
          )
      go (a ∷ more) at order =
          let (f, le, e) =
            After-Processes k fuel l k.head_process h.laid_out (omega (arith, h.enough)) r.before
              (a ∷ more) t at in
          (
            e ∙ ap some (sym (cons_injective order).0),
            Round-in_list t x a xs r.before more at order,
          )

  find_thread-found :
      (rounds t x : ℕ)
      → thread_after fuel k t ≡ some x
      → is_runnable (k.thread x).status ≡ true
      → find_thread fuel (suc rounds) k t ≡ some x
  unfolding find_thread
  find_thread-found rounds t x e b = ground (arith, e, b)

  find_thread-next :
      (rounds t x : ℕ)
      → thread_after fuel k t ≡ some x
      → is_runnable (k.thread x).status ≡ false
      → find_thread fuel (suc rounds) k t ≡ find_thread fuel rounds k x
  unfolding find_thread
  find_thread-next rounds t x e b = ground (arith, e, b)

  -- The loop stops at the first thread that can run.
  find_thread-first :
      (xs ys : List ℕ) (rounds t y : ℕ)
      → Ready
      → Round l t (xs ++ ys)
      → first_runnable k xs ≡ some y
      → length xs ≤ rounds
      → find_thread fuel rounds k t ≡ some y
  unfolding first_runnable
  find_thread-first [] ys rounds t y h r f le = absurd (ground (arith, f))
  find_thread-first (x ∷ xs) ys zero t y h r f le = absurd (omega arith)
  find_thread-first (x ∷ xs) ys (suc rounds) t y h r f le =
      let (e, r') = thread_after-Round t x (xs ++ ys) h r in
      elim (Bool-cases (is_runnable (k.thread x).status)) [
        | inl b ↦ find_thread-found rounds t x e b ∙ ground (arith, f, b)
        | inr b ↦
            find_thread-next rounds t x e b
            ∙ find_thread-first xs (ys ++ x ∷ []) rounds x y h
                (subst (Round l x) (append_assoc xs ys (x ∷ [])) r') (ground (arith, f, b))
                (omega arith)
      ]

  first_runnable-append :
      (xs : List ℕ) (x : ℕ)
      → first_runnable k xs ≡ none
      → is_runnable (k.thread x).status ≡ false
      → first_runnable k (xs ++ x ∷ []) ≡ none
  unfolding first_runnable
  first_runnable-append [] x e b = ground (arith, b)
  first_runnable-append (y ∷ xs) x e b =
      let ih = first_runnable-append xs x in ground (arith, e, b, ih)

  -- If none can run, the loop goes on.
  find_thread-none :
      (rounds : ℕ) (r : List ℕ) (t : ℕ)
      → Ready
      → Round l t r
      → first_runnable k r ≡ none
      → find_thread fuel rounds k t ≡ none
  unfolding find_thread first_runnable
  find_thread-none zero r t h o e = refl
  find_thread-none (suc rounds) [] t h o e = absurd (
      omega (
        arith,
        ap length o.order,
        length-append o.after (o.before ++ t ∷ []),
        length-append o.before (t ∷ []),
      ))
  find_thread-none (suc rounds) (x ∷ xs) t h o e =
      let (a, o') = thread_after-Round t x xs h o in
      let b : is_runnable (k.thread x).status ≡ false = ground (arith, e) in
      let rest : first_runnable k xs ≡ none = ground (arith, e, b) in
      find_thread-next rounds t x a b
      ∙ find_thread-none rounds (xs ++ x ∷ []) x h o' (first_runnable-append xs x rest b)

  schedule-some :
      (rounds t : ℕ)
      → k.process_count ≢ 0
      → k.current_thread ≢ 0
      → k.head_process ≢ 0
      → find_thread fuel rounds k k.current_thread ≡ some t
      → find_next_thread_scheduled fuel rounds k ≡ ok t (record k { current_thread = t })
  unfolding find_next_thread_scheduled
  schedule-some rounds t c n p e = ground (arith, e)

  schedule-none :
      (rounds : ℕ)
      → k.process_count ≢ 0
      → k.current_thread ≢ 0
      → k.head_process ≢ 0
      → find_thread fuel rounds k k.current_thread ≡ none
      → find_next_thread_scheduled fuel rounds k ≡ hung
  unfolding find_next_thread_scheduled
  schedule-none rounds c n p e = ground (arith, e)

  -- With enough fuel, PspFindNextThreadScheduled makes current and returns the first thread that
  -- is READY or RUNNING in the cyclic order behind the current one, which itself comes last; if
  -- there is none it never returns.
  pub find_next-first_runnable :
      (rounds : ℕ) (r : List ℕ)
      → Ready
      → k.process_count ≢ 0
      → k.current_thread ≢ 0
      → Round l k.current_thread r
      → length r ≤ rounds
      → find_next_thread_scheduled fuel rounds k ≡ elim (first_runnable k r) [
        | none ↦ hung
        | some t ↦ ok t (record k { current_thread = t })
      ]
  find_next-first_runnable rounds r h c n o le = go (first_runnable k r) refl
    where
      go :
          (f : Option ℕ)
          → first_runnable k r ≡ f
          → find_next_thread_scheduled fuel rounds k
            ≡ elim f [ none ↦ hung | some t ↦ ok t (record k { current_thread = t }) ]
      go none e =
          schedule-none rounds c n h.some_process (find_thread-none rounds r k.current_thread h o e)
      go (some t) e = schedule-some rounds t c n h.some_process (
          find_thread-first r [] rounds k.current_thread t h
            (subst (Round l k.current_thread) (sym (append-nil r)) o) e le)
