-- ===== src/Multilevel/Queue/Popped.antt =====
-- PspPopScheduleData takes the first thread of its queue.
use mathlib.Core.Path.{subst}
use mylysos.Base.{ℕ, ◌-◌, ◌≡◌, ◌≢◌, sym, ap, ◌∙◌, [], ◌∷◌, arith, Option, none, some, Run, ok}
use mylysos.Memory.{MemBlkManager}
use mylysos.Process.{Kernel, free_memory}
use mylysos.Process.Layout.{Absent}
use mylysos.Process.Layout.Every.{Every, Every-map, Every-all}
use mylysos.Process.Create.Valid.{IsLive, AllLive, Distinct}
use mylysos.Process.Release.{Released, free_memory-Released, AllLive-others}
use mylysos.Multilevel.{
  Scheduler, SchedulePriority, PriorityQueueData, PriorityQueue, queue_of, set_queue,
  pop_schedule_data,
}
use mylysos.Multilevel.Queue.{
  Nodes, addresses, Chain, last_address, EndsAt, Holds, Queues, SchedulePriority-discrete,
  with_nodes, with_nodes-same, with_nodes-other, queue_of-same, queue_of-other, queue_of-fields,
  node-set_queue, kernel-set_queue,
}
use mylysos.Multilevel.Queue.Pushed.{Holds-frame}

-- The queue without its first node.
abbrev pub rest_of : (ℕ → PriorityQueueData) → PriorityQueue → PriorityQueue
rest_of node q = record q { count = q.count - 1; front = (node q.front).next }

EndsAt-rest : (e b u : ℕ) (ns : Nodes) → EndsAt e ((b, u) ∷ ns) → EndsAt e ns
unfolding EndsAt last_address
EndsAt-rest e b u [] h = tt
EndsAt-rest e b u ((c, w) ∷ ns) h = h

Holds-rest :
    (node : ℕ → PriorityQueueData) (q : PriorityQueue) (b u : ℕ) (ns : Nodes)
    → Holds node q ((b, u) ∷ ns)
    → Holds node (rest_of node q) ns
unfolding Chain addresses Distinct
Holds-rest node q b u ns h = record {
  chain = subst (λ x. Chain node (node x).next ns) (sym h.chain.0) h.chain.3;
  ends = EndsAt-rest q.end b u ns h.ends;
  counted = omega (arith, h.counted);
  distinct = h.distinct.1;
}

first-IsLive :
    (m : MemBlkManager) (b u : ℕ) (ns : Nodes) → AllLive m (addresses ((b, u) ∷ ns)) → IsLive m b
unfolding addresses Every
first-IsLive m b u ns l = l.0

-- The state behind the pop of a thread.
pub record First (s : Scheduler) (held : SchedulePriority → Nodes) (p : SchedulePriority) (u : ℕ)
    (ns : Nodes) : Type 0 where
  pub next_state : Scheduler
  pub run : pop_schedule_data p s ≡ ok (some u) next_state
  pub queues : Queues next_state (with_nodes p ns held)
  pub kernel_same : next_state.kernel ≡ record s.kernel { pool = next_state.kernel.pool }
  pub node_same : next_state.node ≡ s.node

-- What a pop does: FALSE, if the queue is empty; else the first thread is taken, its node freed,
-- and nothing else changes but the pool.
pub data Popped (s : Scheduler) (held : SchedulePriority → Nodes) (p : SchedulePriority)
    : Run Scheduler (Option ℕ) → Type 0 where
  empty : held p ≡ [] → Popped s held p (ok none s)
  popped :
      (b u : ℕ) (ns : Nodes) (s' : Scheduler)
      → held p ≡ (b, u) ∷ ns
      → Queues s' (with_nodes p ns held)
      → s'.kernel ≡ record s.kernel { pool = s'.kernel.pool }
      → s'.node ≡ s.node
      → Popped s held p (ok (some u) s')

pop-front :
    (s : Scheduler) (p : SchedulePriority) (k : Kernel)
    → (queue_of p s).count ≢ 0
    → (queue_of p s).front ≢ 0
    → free_memory (queue_of p s).front s.kernel ≡ ok tt k
    → pop_schedule_data p s
      ≡ ok
          (some (s.node (queue_of p s).front).thread)
          (set_queue p (rest_of s.node (queue_of p s)) (record s { kernel = k }))
unfolding pop_schedule_data
pop-front s p k n f e = ground (arith, n, f, e)

module _ (s : Scheduler) (held : SchedulePriority → Nodes) (p : SchedulePriority) (b u : ℕ)
    (ns : Nodes) (m' : MemBlkManager) (v : Queues s held) (at : held p ≡ (b, u) ∷ ns)
    (freed : Released s.kernel b m') where
  shorter : Scheduler
  shorter =
      set_queue p (rest_of s.node (queue_of p s))
        (record s { kernel = record s.kernel { pool = m' } })

  node_eq : shorter.node ≡ s.node
  unfolding shorter
  node_eq = node-set_queue p _ _

  kernel_eq : shorter.kernel ≡ record s.kernel { pool = m' }
  unfolding shorter
  kernel_eq = kernel-set_queue p _ _

  queue_same : queue_of p shorter ≡ rest_of s.node (queue_of p s)
  unfolding shorter
  queue_same = queue_of-same p _ _

  queue_other : (q : SchedulePriority) → p ≢ q → queue_of q shorter ≡ queue_of q s
  unfolding shorter
  queue_other q n =
      queue_of-other p q _ _ n ∙ queue_of-fields q s (record s.kernel { pool = m' }) s.node

  held' : SchedulePriority → Nodes
  held' = with_nodes p ns held

  held_same : held' p ≡ ns
  unfolding held'
  held_same = with_nodes-same p ns held

  held_other : (q : SchedulePriority) → p ≢ q → held' q ≡ held q
  unfolding held'
  held_other q n = with_nodes-other p q ns held n

  before : Holds s.node (queue_of p s) ((b, u) ∷ ns)
  before = subst (Holds s.node (queue_of p s)) at (v.holds p)

  shorter-holds : (q : SchedulePriority) → Holds shorter.node (queue_of q shorter) (held' q)
  shorter-holds q = elim (SchedulePriority-discrete p q) [
    | yes e ↦
        subst (λ q. Holds shorter.node (queue_of q shorter) (held' q)) e
          (rw (held_same, queue_same, node_eq) (Holds-rest s.node (queue_of p s) b u ns before))
    | no n ↦ rw (held_other q n) (
        Holds-frame s shorter q (held q) (queue_other q n)
          (Every-all (λ x. shorter.node x ≡ s.node x) (addresses (held q))
            (λ x. ap (λ (f : ℕ → PriorityQueueData). f x) node_eq))
          (v.holds q))
  ]

  -- The freed node is in no queue.
  gone : (q : SchedulePriority) → Absent b (addresses (held' q))
  unfolding addresses Distinct Every
  gone q = elim (SchedulePriority-discrete p q) [
    | yes e ↦ subst (λ q. Absent b (addresses (held' q))) e (rw held_same before.distinct.0)
    | no n ↦
        rw (held_other q n)
          (subst (λ l. Every (λ x. Absent x (addresses (held q))) (addresses l)) at
            (v.apart p q n)).0
  ]

  was_live : (q : SchedulePriority) → AllLive s.kernel.pool (addresses (held' q))
  unfolding addresses Every
  was_live q = elim (SchedulePriority-discrete p q) [
    | yes e ↦
        subst (λ q. AllLive s.kernel.pool (addresses (held' q))) e
          (rw held_same (subst (λ l. AllLive s.kernel.pool (addresses l)) at (v.live p)).1)
    | no n ↦ rw (held_other q n) (v.live q)
  ]

  apart_from :
      (r : SchedulePriority)
      → p ≢ r
      → Every (λ x. Absent x (addresses (held' r))) (addresses (held' p))
  unfolding addresses Every
  apart_from r n =
      rw (held_same, held_other r n)
        (subst (λ l. Every (λ x. Absent x (addresses (held r))) (addresses l)) at (v.apart p r n)).1

  apart_to :
      (q : SchedulePriority)
      → q ≢ p
      → Every (λ x. Absent x (addresses (held' p))) (addresses (held' q))
  unfolding addresses Absent
  apart_to q n =
      rw (held_same, held_other q (λ z. n (sym z)))
        (Every-map (λ x. Absent x (addresses ((b, u) ∷ ns))) (λ x. Absent x (addresses ns))
          (addresses (held q)) (λ x h. h.1)
          (subst (λ l. Every (λ x. Absent x (addresses l)) (addresses (held q))) at
            (v.apart q p n)))

  shorter-apart :
      (q r : SchedulePriority)
      → q ≢ r
      → Every (λ x. Absent x (addresses (held' r))) (addresses (held' q))
  shorter-apart q r n = elim (SchedulePriority-discrete p q) [
    | yes e ↦
        subst (λ q. Every (λ x. Absent x (addresses (held' r))) (addresses (held' q))) e
          (apart_from r (λ z. n (sym e ∙ z)))
    | no f ↦ elim (SchedulePriority-discrete p r) [
      | yes e ↦
          subst (λ r. Every (λ x. Absent x (addresses (held' r))) (addresses (held' q))) e
            (apart_to q (λ z. f (sym z)))
      | no g ↦ rw (held_other q f, held_other r g) (v.apart q r n)
    ]
  ]

  shorter-Queues : Queues shorter held'
  shorter-Queues = record {
    pool_valid = rw kernel_eq freed.valid;
    holds = shorter-holds;
    live = λ q. rw kernel_eq (
        AllLive-others s.kernel.pool m' b (addresses (held' q)) freed.others (gone q) (was_live q));
    apart = shorter-apart;
  }

  front_at : (queue_of p s).front ≡ b
  unfolding Chain
  front_at = before.chain.0

  pop_run : pop_schedule_data p s ≡ ok (some u) shorter
  unfolding Chain shorter
  pop_run =
      pop-front s p (record s.kernel { pool = m' }) (λ z. omega (arith, z, before.counted))
        (λ z. before.chain.1 (sym front_at ∙ z)) (rw front_at freed.run)
      ∙ ap (λ t. ok (some t) shorter) (ap (λ x. (s.node x).thread) front_at ∙ before.chain.2)

  popped-First : First s held p u ns
  unfolding held'
  popped-First = record {
    next_state = shorter;
    run = pop_run;
    queues = shorter-Queues;
    kernel_same =
        kernel_eq
        ∙ ap (λ m. record s.kernel { pool = m }) (ap (λ (k : Kernel). k.pool) (sym kernel_eq));
    node_same = node_eq;
  }

-- A pop from a queue that holds nodes.
pub pop-First :
    (s : Scheduler) (held : SchedulePriority → Nodes) (p : SchedulePriority) (b u : ℕ) (ns : Nodes)
    → Queues s held
    → held p ≡ (b, u) ∷ ns
    → First s held p u ns
pop-First s held p b u ns v e =
    let (m', freed) = free_memory-Released s.kernel b v.pool_valid (
      first-IsLive s.kernel.pool b u ns
        (subst (λ l. AllLive s.kernel.pool (addresses l)) e (v.live p))) in
    popped-First s held p b u ns m' v e freed
