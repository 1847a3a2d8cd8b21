-- ===== src/Process/Create/Valid.antt =====
-- The invariant of the process manager together with its memory: the lists hold live allocations,
-- each once. What the allocator does keeps it.
pub mod NewProcess
pub mod NewThread
pub mod Calls
use mathlib.Core.Path.{subst}
use mylysos.Base.{
  ℕ, zero, suc, ◌+◌, ◌*◌, ◌≤◌, ◌<◌, ◌≡◌, ◌≢◌, refl, sym, ap, ◌∙◌, ◌⊎◌, inl, inr, List, [], ◌∷◌,
  ◌++◌, arith, Run, ok, fault, hung, Returns, Returns-map,
}
use mylysos.Memory.{
  MemBlkManager, MemBlkDesc, mem_blk_size, allocate_non_cached_memory,
  get_required_blocks_from_bytes,
}
use mylysos.Memory.Valid.{IsValid}
use mylysos.Memory.Alloc.{
  Allocated, refused, placed, allocate-Allocated, after_take, required_blocks_bounds,
}
use mylysos.Memory.Free.{Live, Live-of_size}
use mylysos.Memory.Laws.{Fresh, allocate-Fresh, Allocated-of_run}
use mylysos.Process.{Kernel, allocate}
use mylysos.Process.Layout.Every.{Every}
use mylysos.Process.Layout.{Layout, threads_of, handles_of, Processes, Absent, Processes-same}

-- The handle is the address of a live allocation.
abbrev pub IsLive : MemBlkManager → ℕ → Type 0
IsLive m h = (s : ℕ) × (n : ℕ) × Live m s n × (h ≡ m.pool_entry + s * mem_blk_size)

abbrev pub AllLive : MemBlkManager → List ℕ → Type 0
AllLive m hs = Every (IsLive m) hs

unfoldable pub Distinct : List ℕ → Type 0
Distinct [] = Unit
Distinct (x ∷ xs) = Absent x xs × Distinct xs

pub record KernelValid (k : Kernel) (l : Layout) : Type 0 where
  pub pool_valid : IsValid k.pool
  pub laid_out : Processes k k.head_process l
  pub distinct : Distinct (handles_of l)
  pub live_processes : AllLive k.pool (handles_of l)
  pub live_threads : AllLive k.pool (threads_of l)

-- What an allocation does to the pool: what was live stays so, and an address that is returned is
-- live and new.
pub record PoolStep (m m' : MemBlkManager) (a : ℕ) : Type 0 where
  pub valid : IsValid m'
  pub kept : (h : ℕ) → IsLive m h → IsLive m' h
  pub result : (a ≡ 0) ⊎ (IsLive m' a × ((h : ℕ) → IsLive m h → a ≢ h))

allocate-PoolStep :
    (m m' : MemBlkManager) (bytes a : ℕ)
    → IsValid m
    → 0 < bytes
    → allocate_non_cached_memory bytes m ≡ ok a m'
    → IsValid m'
    → Allocated m bytes a m'
    → PoolStep m m' a
allocate-PoolStep m m' bytes a v p run v' (refused why z same) = record {
  valid = v';
  kept = λ h x. subst (λ y. IsLive y h) (sym same) x;
  result = inl z;
}
allocate-PoolStep m m' bytes a v p run v' (placed t h f first at take same) =
    let k = get_required_blocks_from_bytes bytes in
    let b = required_blocks_bounds bytes in
    let pool_same : m'.pool_entry ≡ m.pool_entry = ap (λ (x : MemBlkManager). x.pool_entry) same in
    let blocks_same : m'.blocks ≡ m.blocks = ap (λ (x : MemBlkManager). x.blocks) same in
    let size : (m'.desc t).block_size ≡ k = take.size_at in
    let nonnull : a ≢ 0 = λ z. omega (arith, z, at, v.entry_pos, v.table_fits) in
    record {
      valid = v';
      kept = λ h' (s, n, l, e).
          (s, n, (allocate-Fresh bytes s n v l run nonnull).still_live, omega arith);
      result = inr (
        (
          t,
          (m'.desc t).block_size,
          Live-of_size t v' (omega arith) (take.used t (omega arith) (omega (arith, b, p)))
              (omega (arith, size, b, p)),
          omega arith,
        ),
        λ h' (s, n, l, e) same'.
            let there : t ≡ s = omega (arith, same', at, e) in
            omega (
              arith,
              f s (omega (arith, there)) (omega (arith, there, b, p)),
              l.all_used s (omega arith) (omega (arith, l.pos)),
            ),
      );
    }

allocate-run :
    (k : Kernel) (m' : MemBlkManager) (bytes a : ℕ)
    → allocate_non_cached_memory bytes k.pool ≡ ok a m'
    → allocate bytes k ≡ ok a (record k { pool = m' })
unfolding allocate
allocate-run k m' bytes a e = ground (arith, e)

-- The kernel after an allocation: only the pool has changed.
pub data Stepped (k : Kernel) (a : ℕ) (k' : Kernel) : Type 0 where
  stepped :
      (m' : MemBlkManager) → PoolStep k.pool m' a → k' ≡ record k { pool = m' } → Stepped k a k'

pub allocate-Stepped :
    (k : Kernel) (bytes : ℕ) → IsValid k.pool → 0 < bytes → Returns (Stepped k) (allocate bytes k)
allocate-Stepped k bytes v p = go (allocate_non_cached_memory bytes k.pool) refl
  where
    go :
        (r : Run MemBlkManager ℕ)
        → allocate_non_cached_memory bytes k.pool ≡ r
        → Returns (Stepped k) (allocate bytes k)
    go (ok a m') e =
        let (v', out) = Allocated-of_run bytes v e in
        subst (Returns (Stepped k)) (sym (allocate-run k m' bytes a e))
          (stepped m' (allocate-PoolStep k.pool m' bytes a v p e v' out) refl)
    go fault e = absurd (
        subst (Returns (λ a m'. IsValid m' × Allocated k.pool bytes a m')) e
          (allocate-Allocated k.pool bytes v))
    go hung e = absurd (
        subst (Returns (λ a m'. IsValid m' × Allocated k.pool bytes a m')) e
          (allocate-Allocated k.pool bytes v))

-- The lists of handles after an allocation.
pub AllLive-kept :
    {m m' : MemBlkManager} (hs : List ℕ)
    → ((h : ℕ) → IsLive m h → IsLive m' h)
    → AllLive m hs
    → AllLive m' hs
unfolding Every
AllLive-kept [] f l = l
AllLive-kept (h ∷ hs) f (l, ls) = (f h l, AllLive-kept hs f ls)

pub AllLive-Absent :
    {m : MemBlkManager} {a : ℕ} (hs : List ℕ)
    → ((h : ℕ) → IsLive m h → a ≢ h)
    → AllLive m hs
    → Absent a hs
unfolding Every Absent
AllLive-Absent [] f l = tt
AllLive-Absent (h ∷ hs) f (l, ls) = (f h l, AllLive-Absent hs f ls)

pub AllLive-append :
    (m : MemBlkManager) (hs gs : List ℕ) → AllLive m hs → AllLive m gs → AllLive m (hs ++ gs)
unfolding Every
AllLive-append m [] gs l k = k
AllLive-append m (h ∷ hs) gs (l, ls) k = (l, AllLive-append m hs gs ls k)

pub Absent-snoc : (x : ℕ) (xs : List ℕ) (a : ℕ) → Absent x xs → x ≢ a → Absent x (xs ++ a ∷ [])
unfolding Absent
Absent-snoc x [] a n ne = (ne, tt)
Absent-snoc x (y ∷ xs) a (n, ns) ne = (n, Absent-snoc x xs a ns ne)

pub Distinct-snoc : (xs : List ℕ) (a : ℕ) → Absent a xs → Distinct xs → Distinct (xs ++ a ∷ [])
unfolding Distinct Absent
Distinct-snoc [] a n d = (tt, tt)
Distinct-snoc (x ∷ xs) a (n, ns) (d, ds) =
    (Absent-snoc x xs a d (λ e. n (sym e)), Distinct-snoc xs a ns ds)

pub KernelValid-Stepped :
    {k k' : Kernel} {l : Layout} {a : ℕ} → KernelValid k l → Stepped k a k' → KernelValid k' l
KernelValid-Stepped {k} {k'} {l} v (stepped m' s e) =
    subst (λ x. KernelValid x l) (sym e)
      (record {
        pool_valid = s.valid;
        laid_out = Processes-same k _ refl refl l k.head_process v.laid_out;
        distinct = v.distinct;
        live_processes = AllLive-kept (handles_of l) s.kept v.live_processes;
        live_threads = AllLive-kept (threads_of l) s.kept v.live_threads;
      })
