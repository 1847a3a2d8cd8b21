-- ===== src/Process/Release.antt =====
-- Memory that is given back to the pool.
use mylysos.Base.{ℕ, ◌+◌, ◌*◌, ◌≡◌, ◌≢◌, sym, ap, ◌∙◌, List, [], ◌∷◌, arith, ok}
use mathlib.Core.Path.{subst}
use mylysos.Memory.{MemBlkManager, mem_blk_size, free_non_cached_memory}
use mylysos.Memory.Valid.{IsValid}
use mylysos.Memory.Free.{Live}
use mylysos.Memory.Apart.{free-Live}
use mylysos.Process.{Kernel, free_memory}
use mylysos.Process.Layout.{Absent}
use mylysos.Process.Layout.Every.{Every}
use mylysos.Process.Create.Valid.{IsLive, AllLive}

-- What a free of a live allocation does to the kernel.
pub record Released (k : Kernel) (base : ℕ) (m' : MemBlkManager) : Type 0 where
  pub run : free_memory base k ≡ ok tt (record k { pool = m' })
  pub valid : IsValid m'
  pub others : (h : ℕ) → h ≢ base → IsLive k.pool h → IsLive m' h
  pub gone : ¬ IsLive m' base

free-run :
    (k : Kernel) (m' : MemBlkManager) (base : ℕ)
    → free_non_cached_memory base k.pool ≡ ok tt m'
    → free_memory base k ≡ ok tt (record k { pool = m' })
unfolding free_memory
free-run k m' base e = ground (arith, e)

pub free_memory-Released :
    (k : Kernel) (base : ℕ)
    → IsValid k.pool
    → IsLive k.pool base
    → (m' : MemBlkManager) × Released k base m'
free_memory-Released k base v (s, n, l, e) =
    let (m', run, f) = free-Live k.pool s n v l in
    (
      m',
      record {
        run = free-run k m' base (ap (λ b. free_non_cached_memory b k.pool) e ∙ run);
        valid = f.valid;
        others = λ h ne (t, j, o, d). (
          t,
          j,
          f.others t j
              (λ same. ne (d ∙ ap (λ x. k.pool.pool_entry + x * mem_blk_size) same ∙ sym e)) o,
          d ∙ ap (λ x. x + t * mem_blk_size) (sym f.entry_same),
        );
        gone = λ (t, j, o, d).
            let there : t ≡ s = omega (arith, d, e, f.entry_same) in
            f.gone j (subst (λ x. Live m' x j) there o);
      },
    )

pub AllLive-others :
    (m m' : MemBlkManager) (base : ℕ) (hs : List ℕ)
    → ((h : ℕ) → h ≢ base → IsLive m h → IsLive m' h)
    → Absent base hs
    → AllLive m hs
    → AllLive m' hs
unfolding Every Absent
AllLive-others m m' base [] f a l = tt
AllLive-others m m' base (h ∷ hs) f (n, a) (l, ls) =
    (f h (λ e. n (sym e)) l, AllLive-others m m' base hs f a ls)
