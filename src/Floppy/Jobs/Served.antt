-- ===== src/Floppy/Jobs/Served.antt =====
-- The service of the jobs that are queued.
use mathlib.Core.List.{map, nil≢cons, head-eq_of_cons-eq, tail-eq_of_cons-eq}
use native.Mathlib.Decide.{ℕ_discrete}
use mylysos.Base.{
  ℕ, suc, ◌≤◌, ◌≡◌, ◌≢◌, refl, sym, ap, ◌∙◌, Bool, true, false, Option, some, List, [], ◌∷◌, ◌++◌,
  length, arith, ◌==◌, update_self, update_ne, ok, pure, bind-ok,
}
use mylysos.Ring.{RingQueue, push_item, pop_item}
use mylysos.Ring.Fifo.{contents, IsValid, Popped, nothing, first, pop_item-contents}
use mylysos.Process.{
  ThreadStatus, ThreadControlBlock, ready, waiting, set_thread, set_thread_status,
}
use mylysos.Process.Layout.Every.{Every}
use mylysos.Floppy.{PortWrite}
use mylysos.Floppy.Jobs.{
  FddJobItem, Driver, fdd_job_item_q_size, set_status, read_job, queue_read, transfer, job_round,
  job_rounds, status_of, queued, Sound,
}

-- What the thread of the driver leaves behind some jobs: the queue is empty, their threads can run,
-- and no other thread's status has changed.
pub record Served (d : Driver) (js : List FddJobItem) (d' : Driver) : Type 0 where
  pub sound : Sound d'
  pub none_left : queued d' ≡ []
  pub awake : Every (λ t. status_of d' t ≡ ready) (map (λ (j : FddJobItem). j.thread) js)
  pub stay : (t : ℕ) → status_of d t ≡ ready → status_of d' t ≡ ready
  pub others :
      (t : ℕ)
      → Every (λ u. t ≢ u) (map (λ (j : FddJobItem). j.thread) js)
      → status_of d' t ≡ status_of d t

set_status-ok :
    (t : ℕ) (s : ThreadStatus) (d : Driver)
    → t ≢ 0
    → set_status t s d
      ≡ ok true
          (record d { kernel = set_thread t (record (d.kernel.thread t) { status = s }) d.kernel })
unfolding set_status set_thread_status
set_status-ok t s d n =
    let test : (t == 0) ≡ false = ground (arith, n) in rw (set_status, set_thread_status, test) refl

abbrev small : fdd_job_item_q_size ≤ 255
small = omega arith

Popped-some :
    (d : Driver) (j : FddJobItem) (js : List FddJobItem)
    (p : Option FddJobItem × RingQueue FddJobItem)
    → queued d ≡ j ∷ js
    → Popped fdd_job_item_q_size small d.job_items p
    → (p.0 ≡ some j) × (contents fdd_job_item_q_size p.1 ≡ js) × IsValid fdd_job_item_q_size p.1
Popped-some d j js p e (nothing v r same c) = absurd (nil≢cons (sym c ∙ e))
Popped-some d j js p e (first x v r c) =
    let both = sym c ∙ e in (r ∙ ap some (head-eq_of_cons-eq both), tail-eq_of_cons-eq both, v)

module _ (dma : List PortWrite → ℕ → ℕ) where
  -- The driver behind a round for the job `j`, with the rest of the queue.
  abbrev served : Driver → FddJobItem → RingQueue FddJobItem → Driver
  served d j q =
      let d = transfer dma j (record d { job_items = q }) in
      record d {
        kernel =
            set_thread j.thread (record (d.kernel.thread j.thread) { status = ready }) d.kernel;
      }

  job_round-served :
      (d : Driver) (j : FddJobItem)
      → (pop_item fdd_job_item_q_size d.job_items).0 ≡ some j
      → j.thread ≢ 0
      → job_round dma d ≡ ok true (served d j (pop_item fdd_job_item_q_size d.job_items).1)
  unfolding job_round
  job_round-served d j e n =
      let d1 =
        transfer dma j (record d { job_items = (pop_item fdd_job_item_q_size d.job_items).1 }) in
      rw (job_round, e)
        (bind-ok (set_status j.thread ready) (λ _. pure true) d1 true _
          (set_status-ok j.thread ready d1 n))

  Served-first :
      (d : Driver) (j : FddJobItem) (q : RingQueue FddJobItem) (js : List FddJobItem) (d' : Driver)
      → Served (served d j q) js d'
      → Served d (j ∷ js) d'
  unfolding Every transfer
  Served-first d j q js d' r =
      let awake : status_of (served d j q) j.thread ≡ ready =
        ap (λ (b : ThreadControlBlock). b.status) (update_self d.kernel.thread j.thread _) in
      let other : (t : ℕ) → t ≢ j.thread → status_of (served d j q) t ≡ status_of d t = λ t n.
        ap (λ (b : ThreadControlBlock). b.status) (update_ne d.kernel.thread j.thread _ t n) in
      record {
        sound = r.sound;
        none_left = r.none_left;
        awake = (r.stay j.thread awake, r.awake);
        stay = λ t e. elim (ℕ_discrete t j.thread) [
          | yes same ↦ r.stay t (ap (status_of (served d j q)) same ∙ awake)
          | no n ↦ r.stay t (other t n ∙ e)
        ];
        others = λ t a. r.others t a.1 ∙ other t a.0;
      }

  -- Rounds of the thread of the driver, as many as there are jobs, serve them all, whatever their
  -- threads.
  pub job_rounds-Served :
      (js : List FddJobItem) (d : Driver)
      → Sound d
      → queued d ≡ js
      → Every (λ t. t ≢ 0) (map (λ (j : FddJobItem). j.thread) js)
      → (d' : Driver) × (job_rounds dma (length js) d ≡ ok tt d') × Served d js d'
  unfolding job_rounds Every transfer
  job_rounds-Served [] d v e n = (
    d,
    refl,
    record { sound = v; none_left = e; awake = tt; stay = λ t h. h; others = λ t a. refl },
  )
  job_rounds-Served (j ∷ js) d v e (n, ns) =
      let p = pop_item fdd_job_item_q_size d.job_items in
      let (found, rest, sound) =
        Popped-some d j js p e (pop_item-contents fdd_job_item_q_size small d.job_items v) in
      let (d', run, r) = job_rounds-Served js (served d j p.1) sound rest ns in
      (
        d',
        bind-ok (job_round dma) (λ _. job_rounds dma (length js)) d true _
              (job_round-served d j found n)
            ∙ run,
        Served-first d j p.1 js d' r,
      )

  -- What a call of FddReadSector comes to, with the rounds of the driver's thread that follow.
  pub data ReadServed (d : Driver) (n numbers pt : ℕ) : Type 0 where
    full :
        (d1 : Driver)
        → queue_read n numbers pt d ≡ ok false d1
        → fdd_job_item_q_size ≤ length (queued d)
        → queued d1 ≡ queued d
        → d1.kernel ≡ d.kernel
        → ReadServed d n numbers pt
    served_in_turn :
        (d1 d2 : Driver)
        → queue_read n numbers pt d ≡ ok true d1
        → status_of d1 d.kernel.current_thread ≡ waiting
        → job_rounds dma (suc (length (queued d))) d1 ≡ ok tt d2
        → Served d1 (queued d ++ read_job n numbers pt d.kernel.current_thread ∷ []) d2
        → ReadServed d n numbers pt

  module _ (d : Driver) (n numbers pt : ℕ) where
    abbrev job : FddJobItem
    job = read_job n numbers pt d.kernel.current_thread

    abbrev pushing : Bool × RingQueue FddJobItem
    pushing = push_item fdd_job_item_q_size job d.job_items

    abbrev waits : Driver
    waits = record d {
      job_items = pushing.1;
      kernel =
          set_thread d.kernel.current_thread
            (record (d.kernel.thread d.kernel.current_thread) { status = waiting }) d.kernel;
    }
