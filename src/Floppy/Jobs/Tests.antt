-- ===== src/Floppy/Jobs/Tests.antt =====
-- A read by the current thread, with the queue empty.
use mylysos.Base.{ℕ, List}
use mylysos.Ring.{empty_queue}
use mylysos.Process.Layout.Every.{Every}
use mylysos.Process.Samples.{three}
use mylysos.Floppy.{PortWrite}
use mylysos.Floppy.Jobs.{Driver, read_job}

abbrev dma : List PortWrite → ℕ → ℕ
dma l a = a

abbrev driver : Driver
driver = record {
  job_items = empty_queue (λ i. read_job 0 0 0 0);
  kernel = record three { current_thread = 11 };
  buffer = λ a i. 0;
}
