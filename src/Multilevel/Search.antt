-- ===== src/Multilevel/Search.antt =====
-- The choice of the next thread: threads that cannot run are taken out of the chosen queue, and the
-- search of mylysos/process.c begins with the first that is left.
use mylysos.Base.{ℕ, ◌≡◌, [], ◌∷◌, none, some, Run, ok, hung, if◌then◌else◌}
use mylysos.Process.{Kernel}
use mylysos.Process.Schedule.{is_runnable, find_thread}
use mylysos.Multilevel.{Scheduler, SchedulePriority, skip_stopped, pick_thread}
use mylysos.Multilevel.Queue.{Nodes, Queues, with_nodes}

-- The nodes from the first thread on that can run.
unfoldable pub from_runnable : Kernel → Nodes → Nodes
from_runnable k [] = []
from_runnable k ((a, t) ∷ ns) =
    if is_runnable (k.thread t).status then (a, t) ∷ ns else from_runnable k ns

-- What the loop over the front of a queue leaves.
pub record Skipped (s : Scheduler) (held : SchedulePriority → Nodes) (p : SchedulePriority)
    (fuel : ℕ) : Type 0 where
  pub after : Scheduler
  pub run : skip_stopped fuel p s ≡ ok tt after
  pub queues : Queues after (with_nodes p (from_runnable s.kernel (held p)) held)
  pub kernel_same : after.kernel ≡ record s.kernel { pool = after.kernel.pool }

-- The thread that the search begins with, and what is left in the queue.
abbrev pub begins_with : ℕ → Nodes → ℕ
begins_with current [] = current
begins_with current ((a, t) ∷ ns) = t

abbrev pub behind : Nodes → Nodes
behind [] = []
behind ((a, t) ∷ ns) = ns

record Picked (s : Scheduler) (held : SchedulePriority → Nodes) (p : SchedulePriority) (l : Nodes)
    : Type 0 where
  after : Scheduler
  run : pick_thread p s ≡ ok (begins_with s.kernel.current_thread l) after
  queues : Queues after (with_nodes p (behind l) held)
  kernel_same : after.kernel ≡ record s.kernel { pool = after.kernel.pool }

-- What a call does, where `l` are the nodes of the chosen queue from the first thread on that can
-- run: the queue keeps what is behind the first of `l`, and the search goes round from its thread,
-- or from the current one if `l` is empty.
pub record Searched (s : Scheduler) (held : SchedulePriority → Nodes) (l : Nodes) (fuel rounds : ℕ)
    (result : Run Scheduler ℕ) : Type 0 where
  pub after : Scheduler
  pub queues : Queues after (with_nodes s.current_schedule_priority (behind l) held)
  pub kernel_same : after.kernel ≡ record s.kernel { pool = after.kernel.pool }
  pub outcome :
      result ≡ elim (find_thread fuel rounds after.kernel (begins_with s.kernel.current_thread l)) [
        | none ↦ hung
        | some t ↦ ok t (record after { kernel = record after.kernel { current_thread = t } })
      ]
