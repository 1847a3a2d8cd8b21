-- ===== src/Process/Start/Valid.antt =====
-- What the start of the process manager leaves.
use mathlib.Core.Path.{subst}
use mylysos.Base.{
  ℕ, ◌≤◌, ◌<◌, ◌≡◌, ◌≢◌, refl, sym, ◌∙◌, Bool, true, false, Option, none, some, List, [], ◌∷◌, ◌++◌,
  length, arith, ◌==◌, update_keep, Cmd, pure, ◌>>◌, Returns, Returns-map, Returns-bind,
  Returns-After,
}
use mylysos.Memory.Valid.{IsValid}
use mylysos.Process.{set_thread, Kernel, ThreadControlBlock, ThreadStatus, set_thread_status}
use mylysos.Process.Layout.{Layout, Processes, threads_of, handles_of}
use mylysos.Process.Layout.Append.{Processes-at}
use mylysos.Process.Cut.Unlink.{Threads-at}
use mylysos.Process.Layout.Every.{Every-all, Agree, Processes-agree}
use mylysos.Process.Create.{Linkage, create_stacked_thread}
use mylysos.Process.Create.Valid.{KernelValid, AllLive}
use mylysos.Process.Create.Valid.NewThread.{ThreadCreated}
use mylysos.Process.Create.Valid.Calls.{create_stacked_thread-ThreadCreated}
use mylysos.Process.Start.{require, write_tss, link_init_thread}
use mylysos.Process.Start.Current.{create_stacked_thread-Keeps}

-- The start either fails, with lists that are sound, or leaves one process with six threads, the
-- fourth of which is the current one.
pub data Started (r : Bool) (k' : Kernel) : Type 0 where
  failed : (l : Layout) → r ≡ false → KernelValid k' l → Started r k'
  started :
      (p init timer task_sw idle process_cutter thread_cutter : ℕ)
      → r ≡ true
      → KernelValid k'
          ((p, init ∷ timer ∷ task_sw ∷ idle ∷ process_cutter ∷ thread_cutter ∷ []) ∷ [])
      → k'.current_thread ≡ idle
      → Started r k'

-- A change of what the lists do not read.
pub KernelValid-agree :
    (k k' : Kernel) (l : Layout)
    → k'.pool ≡ k.pool
    → k'.head_process ≡ k.head_process
    → Agree k k' (λ _. Unit {0})
    → KernelValid k l
    → KernelValid k' l
KernelValid-agree k k' l pool head agree v = record {
  pool_valid = subst IsValid (sym pool) v.pool_valid;
  laid_out =
      subst (λ h. Processes k' h l) (sym head)
        (Processes-agree k k' (λ _. Unit {0}) agree l k.head_process
          (Every-all (λ _. Unit {0}) (threads_of l) (λ _. tt)) v.laid_out);
  distinct = v.distinct;
  live_processes = subst (λ m. AllLive m (handles_of l)) (sym pool) v.live_processes;
  live_threads = subst (λ m. AllLive m (threads_of l)) (sym pool) v.live_threads;
}

-- The function returns and keeps the lists, and what is current.
unfoldable pub Sound : {A : Type 0} → Cmd Kernel A → Type 0
Sound m =
    (k : Kernel) (l : Layout)
    → KernelValid k l
    → Returns (λ _ k'. KernelValid k' l × (k'.current_thread ≡ k.current_thread)) (m k)

Agree-thread :
    (k : Kernel) (t : ℕ) (b : ThreadControlBlock)
    → b.next_thread ≡ (k.thread t).next_thread
    → b.parent_process ≡ (k.thread t).parent_process
    → Agree k (set_thread t b k) (λ _. Unit {0})
Agree-thread k t b n p = record {
  next_same = λ j _. update_keep k.thread t b (λ (y : ThreadControlBlock). y.next_thread) n j;
  parent_same = λ j _. update_keep k.thread t b (λ (y : ThreadControlBlock). y.parent_process) p j;
  head_same = λ q. refl;
  link_same = λ q. refl;
}

pub Sound-write_tss : (t segment : ℕ) (busy : Bool) → Sound (write_tss t segment busy)
unfolding Sound write_tss
Sound-write_tss t segment busy k l v = (
  KernelValid-agree k _ l refl refl
      (record {
        next_same = λ j _. refl;
        parent_same = λ j _. refl;
        head_same = λ q. refl;
        link_same = λ q. refl;
      })
      v,
  refl,
)

pub Sound-link_init_thread : (t : ℕ) → Sound (link_init_thread t)
unfolding Sound link_init_thread
Sound-link_init_thread t k l v =
    (KernelValid-agree k _ l refl refl (Agree-thread k t _ refl refl) v, refl)

pub Sound-set_thread_status : (t : ℕ) (s : ThreadStatus) → t ≢ 0 → Sound (set_thread_status t s)
unfolding Sound set_thread_status
Sound-set_thread_status t s n k l v =
    let test : (t == 0) ≡ false = ground (arith, n) in
    rw test (KernelValid-agree k _ l refl refl (Agree-thread k t _ refl refl) v, refl)

-- Two such functions in turn.
pub Sound-then :
    {A B : Type 0} (m : Cmd Kernel A) (m' : Cmd Kernel B) → Sound m → Sound m' → Sound (m >> m')
unfolding Sound
Sound-then m m' s s' k l v =
    Returns-bind _ _ m (λ _. m') k (s k l v)
      (λ _ k1 h. Returns-map _ _ (m' k1) (s' k1 l h.0) (λ _ k2 _ g. (g.0, g.1 ∙ h.1)))

pub Returns-then :
    {A : Type 0} (m : Cmd Kernel A) (rest : Cmd Kernel Bool) (k : Kernel) (l : Layout)
    → Sound m
    → KernelValid k l
    → ((k' : Kernel)
        → KernelValid k' l
        → k'.current_thread ≡ k.current_thread
        → Returns Started (rest k'))
    → Returns Started ((m >> rest) k)
unfolding Sound
Returns-then m rest k l s v f =
    Returns-bind _ Started m (λ _. rest) k (s k l v) (λ _ k' h. f k' h.0 h.1)

module _ (env : Linkage) (p : ℕ) where
  -- The next thread of the process, and what follows.
  pub Returns-required :
      (entry routine context size : ℕ) (auto : Bool) (rest : ℕ → Cmd Kernel Bool) (k : Kernel)
      (ts : List ℕ)
      → KernelValid k ((p, ts) ∷ [])
      → length ts ≤ env.fuel
      → 0 < size
      → ((t : ℕ) (k' : Kernel)
          → t ≢ 0
          → KernelValid k' ((p, ts ++ t ∷ []) ∷ [])
          → k'.current_thread ≡ k.current_thread
          → Returns Started (rest t k'))
      → Returns Started
          (require (create_stacked_thread env p entry routine context size auto) rest k)
  Returns-required entry routine context size auto rest k ts v le pos f =
      Returns-bind _ Started (create_stacked_thread env p entry routine context size auto) _ k
        (Returns-After _ _ _
          (create_stacked_thread-ThreadCreated env p [] [] ts k entry routine context size auto v le
            pos)
          (create_stacked_thread-Keeps env p entry routine context size auto k))
        (λ r k' h. go r k' h.0 h.1)
    where
      go :
          (r : Option ℕ) (k' : Kernel)
          → ThreadCreated env p [] [] ts k r k'
          → k'.current_thread ≡ k.current_thread
          → Returns Started
              ((elim r as (λ x. Cmd Kernel Bool) [ none ↦ pure false | some h ↦ rest h ]) k')
      go r k' (ThreadCreated.refused e w) c = rw e (failed _ refl w)
      go r k' (ThreadCreated.created t e w) c =
          let list = Processes-at k' p (ts ++ t ∷ []) [] [] k'.head_process w.valid.laid_out in
          rw e (f t k' (Threads-at k' p ts t [] _ list.1).0 w.valid c)
