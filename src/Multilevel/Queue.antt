-- ===== src/Multilevel/Queue.antt =====
-- A queue as a linked list of nodes: what it holds, and what a push and a pop do to that.
pub mod Chain
pub mod Push
pub mod Pushed
pub mod Popped
use mathlib.Core.Logic.{ite, if_pos, if_neg}
use mylysos.Base.{ℕ, ◌≡◌, ◌≢◌, List, [], ◌∷◌, length, refl}
use mylysos.Memory.Valid.{IsValid}
use mylysos.Process.{Kernel}
use mylysos.Process.Layout.{Absent}
use mylysos.Process.Layout.Every.{Every}
use mylysos.Process.Create.Valid.{AllLive, Distinct}
use mylysos.Multilevel.{
  PriorityQueueData, PriorityQueue, Scheduler, SchedulePriority, priority_high, priority_normal,
  priority_low, queue_of, set_queue,
}

-- The nodes of a queue, each with its thread.
abbrev pub Nodes : Type 0
Nodes = List (ℕ × ℕ)

unfoldable pub addresses : Nodes → List ℕ
addresses [] = []
addresses ((a, t) ∷ ns) = a ∷ addresses ns

-- The list that begins at `h` has exactly these nodes.
unfoldable pub Chain : (ℕ → PriorityQueueData) → (h : ℕ) → Nodes → Type 0
Chain node h [] = h ≡ 0
Chain node h ((a, t) ∷ ns) = (h ≡ a) × (a ≢ 0) × ((node a).thread ≡ t) × Chain node (node a).next ns

unfoldable pub last_address : ℕ → Nodes → ℕ
last_address d [] = d
last_address d ((a, t) ∷ ns) = last_address a ns

-- `end` is the last node; it says nothing in an empty queue.
unfoldable pub EndsAt : ℕ → Nodes → Type 0
EndsAt e [] = Unit
EndsAt e ((a, t) ∷ ns) = e ≡ last_address a ns

pub record Holds (node : ℕ → PriorityQueueData) (q : PriorityQueue) (ns : Nodes) : Type 0 where
  pub chain : Chain node q.front ns
  pub ends : EndsAt q.end ns
  pub counted : q.count ≡ length ns
  pub distinct : Distinct (addresses ns)

-- The three queues hold these nodes, which are live allocations, each in one queue only.
pub record Queues (s : Scheduler) (held : SchedulePriority → Nodes) : Type 0 where
  pub pool_valid : IsValid s.kernel.pool
  pub holds : (p : SchedulePriority) → Holds s.node (queue_of p s) (held p)
  pub live : (p : SchedulePriority) → AllLive s.kernel.pool (addresses (held p))
  pub apart :
      (p q : SchedulePriority)
      → p ≢ q
      → Every (λ a. Absent a (addresses (held q))) (addresses (held p))

pub SchedulePriority-discrete : Discrete SchedulePriority
SchedulePriority-discrete = hlevel

-- The queue of one priority holds other nodes.
unfoldable pub with_nodes :
    SchedulePriority → Nodes → (SchedulePriority → Nodes) → SchedulePriority → Nodes
with_nodes p ns held q = ite (SchedulePriority-discrete p q) ns (held q)

pub with_nodes-same :
    (p : SchedulePriority) (ns : Nodes) (held : SchedulePriority → Nodes)
    → with_nodes p ns held p ≡ ns
unfolding with_nodes
with_nodes-same p ns held = if_pos (SchedulePriority-discrete p p) refl ns (held p)

pub with_nodes-other :
    (p q : SchedulePriority) (ns : Nodes) (held : SchedulePriority → Nodes)
    → p ≢ q
    → with_nodes p ns held q ≡ held q
unfolding with_nodes
with_nodes-other p q ns held ne = if_neg (SchedulePriority-discrete p q) ne ns (held q)

pub queue_of-same :
    (p : SchedulePriority) (v : PriorityQueue) (s : Scheduler) → queue_of p (set_queue p v s) ≡ v
queue_of-same priority_high v s = refl
queue_of-same priority_normal v s = refl
queue_of-same priority_low v s = refl

pub node-set_queue :
    (p : SchedulePriority) (v : PriorityQueue) (s : Scheduler) → (set_queue p v s).node ≡ s.node
node-set_queue priority_high v s = refl
node-set_queue priority_normal v s = refl
node-set_queue priority_low v s = refl

pub kernel-set_queue :
    (p : SchedulePriority) (v : PriorityQueue) (s : Scheduler) → (set_queue p v s).kernel ≡ s.kernel
kernel-set_queue priority_high v s = refl
kernel-set_queue priority_normal v s = refl
kernel-set_queue priority_low v s = refl

pub queue_of-other :
    (p q : SchedulePriority) (v : PriorityQueue) (s : Scheduler)
    → p ≢ q
    → queue_of q (set_queue p v s) ≡ queue_of q s
queue_of-other priority_high priority_high v s n = absurd (n refl)
queue_of-other priority_high priority_normal v s n = refl
queue_of-other priority_high priority_low v s n = refl
queue_of-other priority_normal priority_high v s n = refl
queue_of-other priority_normal priority_normal v s n = absurd (n refl)
queue_of-other priority_normal priority_low v s n = refl
queue_of-other priority_low priority_high v s n = refl
queue_of-other priority_low priority_normal v s n = refl
queue_of-other priority_low priority_low v s n = absurd (n refl)

-- The queues are read from their fields only.
pub queue_of-fields :
    (p : SchedulePriority) (s : Scheduler) (k : Kernel) (node : ℕ → PriorityQueueData)
    → queue_of p (record s { kernel = k; node = node }) ≡ queue_of p s
queue_of-fields priority_high s k node = refl
queue_of-fields priority_normal s k node = refl
queue_of-fields priority_low s k node = refl
