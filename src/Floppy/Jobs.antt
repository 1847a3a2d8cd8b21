-- ===== src/Floppy/Jobs.antt =====
-- The jobs of mylysos/fdddrv.c: FddReadSector, which queues a job and makes its thread wait, and the
-- thread that serves the queue. A buffer is an array at its address.
pub mod Served
mod Tests
use mylysos.Base.{
  ℕ, zero, suc, ◌+◌, ◌≤◌, ◌<◌, ◌≡◌, ◌≢◌, refl, sym, ap, ◌∙◌, Bool, true, false, Option, none, some,
  List, [], ◌∷◌, ◌++◌, length, length-append, arith, ltb, leb, ◌==◌, if◌then◌else◌, update,
  update_self, update_ne, update_keep, Run, ok, fault, hung, Cmd, pure, ◌>>=◌, ◌>>◌, bind-ok,
  Bool-cases, inl, inr,
}
use mathlib.Core.List.{map}
use mathlib.Core.Path.{subst}
use mylysos.Ring.{RingQueue, push_item, pop_item}
use mylysos.Ring.Fifo.{
  contents, IsValid, Pushed, push_item-contents, Popped, nothing, first, pop_item-contents,
}
use mylysos.Process.{
  Kernel, ThreadStatus, ThreadControlBlock, ready, waiting, set_thread, set_thread_status,
}
use mylysos.Process.Layout.Every.{Every}
use mylysos.Floppy.{FddJobType, fdd_read_sector, PortWrite, read_write_sector}

pub record FddJobItem : Type 0 where
  pub kind : FddJobType
  pub sector : ℕ
  pub numbers_of_sectors : ℕ
  pub pt_data : ℕ
  pub thread : ℕ

abbrev pub fdd_job_item_q_size : ℕ
fdd_job_item_q_size = 32

-- The variables of fdddrv.c, what the kernel knows of the threads, and the buffers.
pub record Driver : Type 0 where
  pub job_items : RingQueue FddJobItem
  pub kernel : Kernel
  pub buffer : ℕ → ℕ → ℕ

-- A call of PsSetThreadStatus.
unfoldable pub set_status : (thread : ℕ) → ThreadStatus → Cmd Driver Bool
set_status thread status d = elim (set_thread_status thread status d.kernel) [
  | ok r k ↦ ok r (record d { kernel = k })
  | fault ↦ fault
  | hung ↦ hung
]

abbrev pub read_job : (sector_number numbers_of_sectors pt_data thread : ℕ) → FddJobItem
read_job n numbers pt thread = record {
  kind = fdd_read_sector;
  sector = n;
  numbers_of_sectors = numbers;
  pt_data = pt;
  thread = thread;
}

-- FddReadSector up to HalTaskSwitch; behind it, it returns TRUE.
unfoldable pub queue_read : (sector_number numbers_of_sectors pt_data : ℕ) → Cmd Driver Bool
queue_read n numbers pt d =
    let thread = d.kernel.current_thread in
    let (pushed, q) = push_item fdd_job_item_q_size (read_job n numbers pt thread) d.job_items in
    let d = record d { job_items = q } in
    if pushed then (set_status thread waiting >> pure true) d else ok false d

module _ (dma : List PortWrite → ℕ → ℕ) where
  -- The transfer of a job.
  unfoldable pub transfer : FddJobItem → Driver → Driver
  transfer j d = record d {
    buffer =
        update d.buffer j.pt_data
          (read_write_sector dma j.kind j.sector j.numbers_of_sectors (d.buffer j.pt_data)).1;
  }

  -- A round of FddpJobProcessThread; false where there is no job and it gives up the processor.
  unfoldable pub job_round : Cmd Driver Bool
  job_round d =
      let (item, q) = pop_item fdd_job_item_q_size d.job_items in
      elim item [
        | none ↦ ok false d
        | some j ↦
            (set_status j.thread ready >> pure true) (transfer j (record d { job_items = q }))
      ]

  unfoldable pub job_rounds : (n : ℕ) → Cmd Driver (Unit {0})
  job_rounds zero = pure tt
  job_rounds (suc n) = job_round >> job_rounds n

abbrev pub status_of : Driver → ℕ → ThreadStatus
status_of d t = (d.kernel.thread t).status

-- What the driver has queued.
abbrev pub queued : Driver → List FddJobItem
queued d = contents fdd_job_item_q_size d.job_items

abbrev pub Sound : Driver → Type 0
Sound d = IsValid fdd_job_item_q_size d.job_items
