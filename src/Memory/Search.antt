-- ===== src/Memory/Search.antt =====
-- The search loop of MmAllocateNonCachedMemory finds the first row of free blocks that is long
-- enough, below the last block, or there is none.
use mylysos.Base.{
  ℕ, zero, suc, ◌+◌, ◌≤◌, ◌<◌, ◌≡◌, sym, inl, inr, false, none, some, arith, ltb, Bool-cases,
}
use mathlib.Core.Path.{subst}
use native.Mathlib.Decide.{dec_lt}
use mylysos.Memory.{
  SearchResult, found, not_found, out_of_fuel, search_blocks, mem_blk_free, mem_blk_used,
}
use mylysos.Memory.Table.{Table, AllStatus, Chunks, end, free_one, allocated, Chunks-le, Linked}

-- `required` free blocks in a row from `t` on.
abbrev pub Fits : Table → ℕ → ℕ → Type 0
Fits d required t = AllStatus mem_blk_free d t (t + required)

abbrev pub FirstFit : ℕ → Table → (required lo : ℕ) → SearchResult → Type 0
FirstFit last d required lo (found s) =
    (lo ≤ s)
    × (s + required ≤ last)
    × Fits d required s
    × Chunks last d s
    × ((t : ℕ) → lo ≤ t → t < s → ¬ Fits d required t)
FirstFit last d required lo not_found = (t : ℕ) → lo ≤ t → t + required ≤ last → ¬ Fits d required t
FirstFit last d required lo out_of_fuel = ⊥

-- No row of the length starts in front of the end of an allocation that begins before the row
-- is complete.
no_fit_before :
    (d : Table) (required start cur cnt n : ℕ)
    → start + cnt ≡ cur
    → cnt < required
    → 0 < n
    → AllStatus mem_blk_used d cur (cur + n)
    → (t : ℕ) → start ≤ t
    → t < cur + n
    → ¬ Fits d required t
no_fit_before d required start cur cnt n e h p u t lo hi f = elim (dec_lt t cur) [
  | yes before ↦ omega (arith, u cur (omega arith) (omega arith), f cur (omega arith) (omega arith))
  | no behind ↦ omega (arith, u t (omega arith) (omega arith), f t (omega arith) (omega arith))
]

FirstFit-weaken :
    (last : ℕ) (d : Table) (required lo lo' : ℕ) (r : SearchResult)
    → lo ≤ lo'
    → ((t : ℕ) → lo ≤ t → t < lo' → ¬ Fits d required t)
    → FirstFit last d required lo' r
    → FirstFit last d required lo r
FirstFit-weaken last d required lo lo' (found s) h none_before (a, b, f, c, m) = (
  omega arith,
  b,
  f,
  c,
  λ t p q. elim (dec_lt t lo') [
    | yes before ↦ none_before t p before
    | no behind ↦ m t (omega arith) q
  ],
)
FirstFit-weaken last d required lo lo' not_found h none_before m = λ t p q. elim (dec_lt t lo') [
  | yes before ↦ none_before t p before
  | no behind ↦ m t (omega arith) q
]
FirstFit-weaken last d required lo lo' out_of_fuel h none_before m = m

-- The rounds of the loop.
module _ (d : Table) (required fuel start cur cnt : ℕ) where
  search-full :
      ltb cnt required ≡ false → search_blocks (suc fuel) d required start cur cnt ≡ found start
  unfolding search_blocks
  search-full h = ground arith

  search-end :
      cnt < required
      → (d cur).next ≡ none
      → search_blocks (suc fuel) d required start cur cnt ≡ not_found
  unfolding search_blocks
  search-end h e = ground arith

  search-free :
      (next : ℕ)
      → cnt < required
      → (d cur).next ≡ some next
      → (d cur).status ≡ mem_blk_free
      → search_blocks (suc fuel) d required start cur cnt
        ≡ search_blocks fuel d required start next (cnt + 1)
  unfolding search_blocks
  search-free next h e s = ground arith

  search-used :
      (next n : ℕ)
      → cnt < required
      → (d cur).next ≡ some next
      → (d cur).status ≡ mem_blk_used
      → (d cur).block_size ≡ n
      → search_blocks (suc fuel) d required start cur cnt
        ≡ search_blocks fuel d required (cur + n) (cur + n) 0
  unfolding search_blocks
  search-used next n h e s z = ground arith

module _ {last : ℕ} {d : Table} where
  -- A round of the loop, where the row is not complete yet.
  search_more :
      (required fuel start cur cnt : ℕ)
      → Linked last d
      → start + cnt ≡ cur
      → cnt < required
      → AllStatus mem_blk_free d start cur
      → Chunks last d start
      → Chunks last d cur
      → last < cur + suc fuel
      → ((start cur cnt : ℕ)
          → start + cnt ≡ cur
          → cnt ≤ required
          → AllStatus mem_blk_free d start cur
          → Chunks last d start
          → Chunks last d cur
          → last < cur + fuel
          → FirstFit last d required start (search_blocks fuel d required start cur cnt))
      → FirstFit last d required start (search_blocks (suc fuel) d required start cur cnt)
  search_more required fuel start cur cnt l e b f cs (end g s) h ih =
      subst (FirstFit last d required start)
        (sym (search-end d required fuel start cur cnt b (rw g l.next_of_last)))
        (λ t p q. absurd (omega arith))
  search_more required fuel start cur cnt l e b f cs (free_one g s c) h ih =
      subst (FirstFit last d required start)
        (sym (search-free d required fuel start cur cnt (cur + 1) b (l.next_of cur g) s))
        (ih start (cur + 1) (cnt + 1) (omega arith) (omega arith)
          (λ j p q. elim (dec_lt j cur) [
            | yes before ↦ f j p before
            | no behind ↦ let here : j ≡ cur = omega arith in rw here s
          ])
          cs c (omega arith))
  search_more required fuel start cur cnt l e b f cs (allocated n p z u i c) h ih =
      let g : cur < last = omega (arith, Chunks-le c) in
      subst (FirstFit last d required start)
        (sym (
          search-used d required fuel start cur cnt (cur + 1) n b (l.next_of cur g)
            (u cur (omega arith) (omega arith)) z))
        (FirstFit-weaken last d required start (cur + n) _ (omega arith)
          (no_fit_before d required start cur cnt n e b p u)
          (ih (cur + n) (cur + n) 0 (omega arith) (omega arith) (λ j lo hi. absurd (omega arith)) c
            c (omega arith)))

  pub search_blocks-FirstFit :
      (required fuel start cur cnt : ℕ)
      → Linked last d
      → 0 < required
      → start + cnt ≡ cur
      → cnt ≤ required
      → AllStatus mem_blk_free d start cur
      → Chunks last d start
      → Chunks last d cur
      → last < cur + fuel
      → FirstFit last d required start (search_blocks fuel d required start cur cnt)
  search_blocks-FirstFit required zero start cur cnt l r e b f cs c h =
      absurd (omega (arith, Chunks-le c))
  search_blocks-FirstFit required (suc fuel) start cur cnt l r e b f cs c h =
      elim (Bool-cases (ltb cnt required)) [
        | inl more ↦
            search_more required fuel start cur cnt l e (ground arith) f cs c h
              (λ s k n e' b' f' cs' c' h'.
                search_blocks-FirstFit required fuel s k n l r e' b' f' cs' c' h')
        | inr full ↦
            let complete : cnt ≡ required = ground arith in
            subst (FirstFit last d required start)
              (sym (search-full d required fuel start cur cnt full))
              (
                omega arith,
                omega (arith, Chunks-le c),
                (λ j p q. f j p (omega arith)),
                cs,
                λ t p q. absurd (omega arith),
              )
      ]
