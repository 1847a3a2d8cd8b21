-- ===== src/Multilevel/Queue/Pushed.antt =====
-- PspPushScheduleData, with its allocation, on one of the three queues.
use mathlib.Core.Path.{subst}
use mylysos.Base.{
  ℕ, ◌<◌, ◌^◌, ◌≡◌, ◌≢◌, sym, ap, ◌∙◌, inl, inr, [], ◌∷◌, ◌++◌, length, arith, true, Bool, Run, ok,
  fault, Returns-ok,
}
use mylysos.Memory.{MemBlkManager}
use mylysos.Process.{Kernel, allocate}
use mylysos.Process.Layout.{Absent}
use mylysos.Process.Layout.Every.{Every, Every-join, Every-map, Every-both, Every-Absent}
use mylysos.Process.Create.Valid.{
  IsLive, AllLive, AllLive-kept, AllLive-Absent, AllLive-append, Absent-snoc, Stepped, stepped,
  PoolStep, allocate-Stepped,
}
use mylysos.Multilevel.{
  Scheduler, SchedulePriority, PriorityQueueData, queue_of, linked_nodes, linked_queue, link_node,
  push_schedule_data, sizeof_queue_data,
}
use mylysos.Multilevel.Queue.{
  Nodes, addresses, Holds, Queues, SchedulePriority-discrete, with_nodes, with_nodes-same,
  with_nodes-other, queue_of-same, queue_of-other, queue_of-fields, node-set_queue,
  kernel-set_queue,
}
use mylysos.Multilevel.Queue.Chain.{addresses-snoc, Chain-frame}
use mylysos.Multilevel.Queue.Push.{Holds-push, linked_nodes-others}

-- A queue whose nodes stay as they are.
pub Holds-frame :
    (s s' : Scheduler) (q : SchedulePriority) (ns : Nodes)
    → queue_of q s' ≡ queue_of q s
    → Every (λ a. s'.node a ≡ s.node a) (addresses ns)
    → Holds s.node (queue_of q s) ns
    → Holds s'.node (queue_of q s') ns
Holds-frame s s' q ns same nodes h =
    subst (λ x. Holds s'.node x ns) (sym same)
      (record {
        chain = Chain-frame s.node s'.node ns _ nodes h.chain;
        ends = h.ends;
        counted = h.counted;
        distinct = h.distinct;
      })

-- What a push may do: the node cannot be allocated, and the code writes through NULL; or the thread
-- stands at the end of its queue, and nothing else has changed but the pool.
pub data Pushed (s : Scheduler) (held : SchedulePriority → Nodes) (p : SchedulePriority) (t : ℕ)
    : Run Scheduler Bool → Type 0 where
  no_memory : (k : Kernel) → allocate sizeof_queue_data s.kernel ≡ ok 0 k → Pushed s held p t fault
  pushed :
      (a : ℕ) (s' : Scheduler)
      → Queues s' (with_nodes p (held p ++ (a, t) ∷ []) held)
      → s'.kernel ≡ record s.kernel { pool = s'.kernel.pool }
      → Pushed s held p t (ok true s')

module _ (s : Scheduler) (held : SchedulePriority → Nodes) (p : SchedulePriority) (a t : ℕ)
    (m' : MemBlkManager) (v : Queues s held) (step : PoolStep s.kernel.pool m' a) (nonnull : a ≢ 0)
    (live_new : IsLive m' a) (new : (h : ℕ) → IsLive s.kernel.pool h → a ≢ h)
    (small : length (held p) < 2 ^ 31) where
  allocated : Scheduler
  allocated = record s { kernel = record s.kernel { pool = m' } }

  linked : Scheduler
  unfolding allocated
  linked = link_node p a t allocated

  held' : SchedulePriority → Nodes
  held' = with_nodes p (held p ++ (a, t) ∷ []) held

  absent : (q : SchedulePriority) → Absent a (addresses (held q))
  absent q = AllLive-Absent (addresses (held q)) new (v.live q)

  node_eq : linked.node ≡ linked_nodes s.node (queue_of p s) a t
  unfolding linked allocated link_node
  node_eq =
      node-set_queue p _ _
      ∙ ap (λ q. linked_nodes s.node q a t)
          (queue_of-fields p s (record s.kernel { pool = m' }) s.node)

  queue_same : queue_of p linked ≡ linked_queue (queue_of p s) a
  unfolding linked allocated link_node
  queue_same =
      queue_of-same p _ _
      ∙ ap (λ q. linked_queue q a) (queue_of-fields p s (record s.kernel { pool = m' }) s.node)

  queue_other : (q : SchedulePriority) → p ≢ q → queue_of q linked ≡ queue_of q s
  unfolding linked allocated link_node
  queue_other q n = queue_of-other p q _ _ n ∙ queue_of-fields q s (record s.kernel { pool = m' }) _

  kernel_eq : linked.kernel ≡ record s.kernel { pool = m' }
  unfolding linked allocated link_node
  kernel_eq = kernel-set_queue p _ _

  -- The nodes of another queue are not in this one, and none of them is the new one.
  apart_new :
      (q : SchedulePriority)
      → q ≢ p
      → Every (λ x. Absent x (addresses (held p)) × (a ≢ x)) (addresses (held q))
  apart_new q n =
      Every-both (λ x. Absent x (addresses (held p))) (λ x. a ≢ x) (addresses (held q))
        (v.apart q p n) (Every-Absent a (addresses (held q)) (absent q))

  linked-holds : (q : SchedulePriority) → Holds linked.node (queue_of q linked) (held' q)
  unfolding held'
  linked-holds q = elim (SchedulePriority-discrete p q) [
    | yes e ↦
        subst
          (λ q. Holds linked.node (queue_of q linked) (with_nodes p (held p ++ (a, t) ∷ []) held q))
          e
          (rw (with_nodes-same p (held p ++ (a, t) ∷ []) held, queue_same, node_eq)
            (Holds-push s.node (queue_of p s) a t nonnull (held p) (v.holds p) (absent p) small))
    | no n ↦ rw (with_nodes-other p q (held p ++ (a, t) ∷ []) held n) (
        Holds-frame s linked q (held q) (queue_other q n)
          (Every-map (λ x. Absent x (addresses (held p)) × (a ≢ x)) (λ x. linked.node x ≡ s.node x)
            (addresses (held q))
            (λ x (f, g).
              ap (λ (y : ℕ → PriorityQueueData). y x) node_eq
              ∙ linked_nodes-others s.node (queue_of p s) a t nonnull (held p) x (v.holds p)
                  (λ z. g (sym z)) f (absent p))
            (apart_new q (λ z. n (sym z))))
          (v.holds q))
  ]

  same_addresses : addresses (held' p) ≡ addresses (held p) ++ a ∷ []
  unfolding held'
  same_addresses =
      ap addresses (with_nodes-same p (held p ++ (a, t) ∷ []) held) ∙ addresses-snoc (held p) a t

  other_addresses : (q : SchedulePriority) → p ≢ q → addresses (held' q) ≡ addresses (held q)
  unfolding held'
  other_addresses q n = ap addresses (with_nodes-other p q (held p ++ (a, t) ∷ []) held n)

  linked-live : (q : SchedulePriority) → AllLive m' (addresses (held' q))
  unfolding Every
  linked-live q = elim (SchedulePriority-discrete p q) [
    | yes e ↦
        subst (λ q. AllLive m' (addresses (held' q))) e
          (rw same_addresses (
            AllLive-append m' (addresses (held p)) (a ∷ [])
              (AllLive-kept (addresses (held p)) step.kept (v.live p)) (live_new, tt)))
    | no n ↦ rw (other_addresses q n) (AllLive-kept (addresses (held q)) step.kept (v.live q))
  ]

  apart_from :
      (r : SchedulePriority)
      → p ≢ r
      → Every (λ x. Absent x (addresses (held' r))) (addresses (held' p))
  unfolding Every
  apart_from r n =
      rw (same_addresses, other_addresses r n)
        (Every-join (λ x. Absent x (addresses (held r))) (addresses (held p)) (a ∷ [])
          (v.apart p r n) (absent r, tt))

  apart_to :
      (q : SchedulePriority)
      → q ≢ p
      → Every (λ x. Absent x (addresses (held' p))) (addresses (held' q))
  apart_to q n =
      rw (same_addresses, other_addresses q (λ z. n (sym z)))
        (Every-map (λ x. Absent x (addresses (held p)) × (a ≢ x))
          (λ x. Absent x (addresses (held p) ++ a ∷ [])) (addresses (held q))
          (λ x (f, g). Absent-snoc x (addresses (held p)) a f (λ z. g (sym z))) (apart_new q n))

  linked-apart :
      (q r : SchedulePriority)
      → q ≢ r
      → Every (λ x. Absent x (addresses (held' r))) (addresses (held' q))
  linked-apart q r n = elim (SchedulePriority-discrete p q) [
    | yes e ↦
        subst (λ q. Every (λ x. Absent x (addresses (held' r))) (addresses (held' q))) e
          (apart_from r (λ z. n (sym e ∙ z)))
    | no f ↦ elim (SchedulePriority-discrete p r) [
      | yes e ↦
          subst (λ r. Every (λ x. Absent x (addresses (held' r))) (addresses (held' q))) e
            (apart_to q (λ z. f (sym z)))
      | no g ↦ rw (other_addresses q f, other_addresses r g) (v.apart q r n)
    ]
  ]

  linked-Queues : Queues linked held'
  linked-Queues = record {
    pool_valid = rw kernel_eq step.valid;
    holds = linked-holds;
    live = λ q. rw kernel_eq (linked-live q);
    apart = linked-apart;
  }

  Pushed-run :
      push_schedule_data p t s
        ≡ ok true (link_node p a t (record s { kernel = record s.kernel { pool = m' } }))
      → Pushed s held p t (push_schedule_data p t s)
  unfolding linked allocated held'
  Pushed-run e = subst (Pushed s held p t) (sym e) (
      pushed a linked linked-Queues (
        kernel_eq
        ∙ ap (λ m. record s.kernel { pool = m }) (ap (λ (k : Kernel). k.pool) (sym kernel_eq))))

module _ (s : Scheduler) (p : SchedulePriority) (t a : ℕ) (k' : Kernel) where
  push-null :
      allocate sizeof_queue_data s.kernel ≡ ok a k' → a ≡ 0 → push_schedule_data p t s ≡ fault
  unfolding push_schedule_data
  push-null e z = ground (arith, e, z)

  push-linked :
      allocate sizeof_queue_data s.kernel ≡ ok a k'
      → a ≢ 0
      → push_schedule_data p t s ≡ ok true (link_node p a t (record s { kernel = k' }))
  unfolding push_schedule_data
  push-linked e n = ground (arith, e, n)

-- PspPushScheduleData puts the thread at the end of the queue of its priority, in a node of its
-- own, and leaves the two other queues alone; where there is no memory for the node, it writes
-- through NULL.
pub push_schedule_data-Pushed :
    (s : Scheduler) (held : SchedulePriority → Nodes) (p : SchedulePriority) (t : ℕ)
    → Queues s held
    → length (held p) < 2 ^ 31
    → Pushed s held p t (push_schedule_data p t s)
push_schedule_data-Pushed s held p t v small =
    let (a, k', run, st) =
      Returns-ok (Stepped s.kernel) (allocate sizeof_queue_data s.kernel)
        (allocate-Stepped s.kernel sizeof_queue_data v.pool_valid (omega arith)) in
    go a k' run st
  where
    go :
        (a : ℕ) (k' : Kernel)
        → allocate sizeof_queue_data s.kernel ≡ ok a k'
        → Stepped s.kernel a k'
        → Pushed s held p t (push_schedule_data p t s)
    go a k' run (stepped m' step e) = elim step.result [
      | inl z ↦
          subst (Pushed s held p t) (sym (push-null s p t a k' run z))
            (no_memory k' (run ∙ ap (λ x. ok x k') z))
      | inr (live, new) ↦
          let nonnull : a ≢ 0 =
            λ z. omega (arith, z, live.3, step.valid.entry_pos, step.valid.table_fits) in
          Pushed-run s held p a t m' v step nonnull live new small (
            push-linked s p t a k' run nonnull
            ∙ ap (λ k. ok true (link_node p a t (record s { kernel = k }))) e)
    ]
