-- ===== src/Multilevel/Tests.antt =====
-- A scheduler with one thread in a queue, and the theorems on it.
use mathlib.Core.Path.{subst}
use mylysos.Base.{
  ℕ, zero, suc, ◌≡◌, refl, [], ◌∷◌, ◌++◌, arith, ok, fault, hung, Run, update, true, Bool,
}
use mylysos.Memory.Samples.{pool-IsValid}
use mylysos.Memory.{
  allocate_non_cached_memory, get_required_blocks_from_bytes, get_pool_addr_from_desc_addr,
  search_blocks, for_blocks, take_blocks, finish_allocation,
}
use mylysos.Memory.Init.{create_descs, link_blocks}
use mylysos.Process.{allocate}
use mylysos.Process.Layout.Every.{Every}
use mylysos.Process.Create.Valid.{Distinct}
use mylysos.Process.Samples.{three}
use mylysos.Multilevel.{
  Scheduler, SchedulePriority, priority_high, priority_normal, priority_low, PriorityQueue,
  queue_of, push_schedule_data, choose_priority,
}
use mylysos.Multilevel.Queue.{Nodes, Chain, EndsAt, addresses, Queues, Holds, with_nodes}
use mylysos.Multilevel.Queue.Pushed.{Pushed, pushed, push_schedule_data-Pushed}
use mylysos.Multilevel.Queue.Popped.{Popped}
use mylysos.Multilevel.Quota.{
  Ticks, last, more, AlwaysWaiting, nobody, waits, Chosen, AlwaysWaiting-Chosen,
}

abbrev no_nodes : PriorityQueue
no_nodes = record { count = 0; front = 0; end = 0 }

abbrev idle : Scheduler
idle = record {
  kernel = three;
  priority = λ t. priority_low;
  node = λ a. record { thread = 0; next = 0 };
  current_schedule_priority = priority_low;
  high_t = 0;
  normal_t = 0;
  low_t = 0;
  high_q = no_nodes;
  normal_q = no_nodes;
  low_q = no_nodes;
}

abbrev nothing_held : SchedulePriority → Nodes
nothing_held p = []

idle-Holds : (p : SchedulePriority) → Holds idle.node (queue_of p idle) []
unfolding Chain EndsAt addresses Distinct
idle-Holds priority_high = record { chain = refl; ends = tt; counted = refl; distinct = tt }
idle-Holds priority_normal = record { chain = refl; ends = tt; counted = refl; distinct = tt }
idle-Holds priority_low = record { chain = refl; ends = tt; counted = refl; distinct = tt }

idle-Queues : Queues idle nothing_held
unfolding addresses Every
idle-Queues = record {
  pool_valid = pool-IsValid;
  holds = idle-Holds;
  live = λ p. tt;
  apart = λ p q n. tt;
}

push_schedule_data-Pushed_example :
    Pushed idle nothing_held priority_low 11 (push_schedule_data priority_low 11 idle)
push_schedule_data-Pushed_example =
    push_schedule_data-Pushed idle nothing_held priority_low 11 idle-Queues (omega arith)

abbrev state_of : Run Scheduler Bool → Scheduler
state_of (ok b s) = s
state_of fault = idle
state_of hung = idle

-- The thread 11 waits in the queue of low priority.
waiting_one : Scheduler
waiting_one = state_of (push_schedule_data priority_low 11 idle)

push_runs : push_schedule_data priority_low 11 idle ≡ ok true waiting_one
unfolding waiting_one push_schedule_data allocate allocate_non_cached_memory
    get_required_blocks_from_bytes get_pool_addr_from_desc_addr search_blocks for_blocks take_blocks
    finish_allocation create_descs link_blocks update
push_runs = refl

-- What a push that returns has put into the queue.
Pushed-ok :
    {s s' : Scheduler} {held : SchedulePriority → Nodes} {p : SchedulePriority} {t : ℕ}
    → Pushed s held p t (ok true s')
    → (a : ℕ) × Queues s' (with_nodes p (held p ++ (a, t) ∷ []) held)
Pushed-ok (pushed a _ q e) = (a, q)

waiting_one-Queues :
    (a : ℕ) × Queues waiting_one (with_nodes priority_low ((a, 11) ∷ []) nothing_held)
waiting_one-Queues =
    Pushed-ok
      (subst (Pushed idle nothing_held priority_low 11) push_runs push_schedule_data-Pushed_example)

abbrev one_held : SchedulePriority → Nodes
one_held = with_nodes priority_low ((waiting_one-Queues.0, 11) ∷ []) nothing_held

abbrev busy : Scheduler
busy = record idle { high_q = record { count = 1; front = 8; end = 8 } }

abbrev tick : ℕ → Scheduler
tick zero = busy
tick (suc n) = choose_priority (tick n)

busy-Ticks : Ticks (tick 0 ∷ tick 1 ∷ tick 2 ∷ tick 3 ∷ tick 4 ∷ [])
busy-Ticks = more (tick 0) (tick 1) _ refl refl refl (
    more (tick 1) (tick 2) _ refl refl refl (
      more (tick 2) (tick 3) _ refl refl refl
        (more (tick 3) (tick 4) _ refl refl refl (last (tick 4)))))

busy-AlwaysWaiting : AlwaysWaiting priority_high (tick 0 ∷ tick 1 ∷ tick 2 ∷ tick 3 ∷ tick 4 ∷ [])
unfolding choose_priority
busy-AlwaysWaiting = waits _ _ (omega arith) (
    waits _ _ (omega arith)
      (waits _ _ (omega arith) (waits _ _ (omega arith) (waits _ _ (omega arith) nobody))))

AlwaysWaiting-Chosen_example :
    Chosen priority_high (tick 0 ∷ tick 1 ∷ tick 2 ∷ tick 3 ∷ tick 4 ∷ [])
AlwaysWaiting-Chosen_example =
    AlwaysWaiting-Chosen priority_high (tick 0) (tick 1 ∷ tick 2 ∷ tick 3 ∷ tick 4 ∷ [])
      (record { high = omega arith; normal = omega arith; low = omega arith }) busy-Ticks
      busy-AlwaysWaiting (omega arith)
