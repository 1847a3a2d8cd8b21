-- ===== src/Multilevel/Quota.antt =====
-- The choice of a queue at each tick: the quotas, and that no queue waits for ever.
use mylysos.Base.{
  ℕ, suc, ◌+◌, ◌-◌, ◌≤◌, ◌<◌, ◌≡◌, ◌⊎◌, inl, inr, List, [], ◌∷◌, length, arith, refl, ltb,
  if◌then◌else◌,
}
use mylysos.Multilevel.{
  Scheduler, SchedulePriority, priority_high, priority_normal, priority_low, queue_of,
  choose_priority,
}

pub record WithinQuota (s : Scheduler) : Type 0 where
  pub high : s.high_t ≤ 6
  pub normal : s.normal_t ≤ 3
  pub low : s.low_t ≤ 1

-- The states at the ticks one after another. Between two ticks all may change but the counters of
-- the quotas.
pub data Ticks : List Scheduler → Type 0 where
  last : (s : Scheduler) → Ticks (s ∷ [])
  more :
      (s t : Scheduler) (rest : List Scheduler)
      → t.high_t ≡ (choose_priority s).high_t
      → t.normal_t ≡ (choose_priority s).normal_t
      → t.low_t ≡ (choose_priority s).low_t
      → Ticks (t ∷ rest)
      → Ticks (s ∷ t ∷ rest)

-- At each tick the queue of the priority holds a thread.
pub data AlwaysWaiting (p : SchedulePriority) : List Scheduler → Type 0 where
  nobody : AlwaysWaiting p []
  waits :
      (s : Scheduler) (rest : List Scheduler)
      → 0 < (queue_of p s).count
      → AlwaysWaiting p rest
      → AlwaysWaiting p (s ∷ rest)

-- At one of the ticks the queue of the priority is chosen.
pub data Chosen (p : SchedulePriority) : List Scheduler → Type 0 where
  now :
      (s : Scheduler) (rest : List Scheduler)
      → (choose_priority s).current_schedule_priority ≡ p
      → Chosen p (s ∷ rest)
  later : (s : Scheduler) (rest : List Scheduler) → Chosen p rest → Chosen p (s ∷ rest)

-- The ticks until the queue is chosen, at most.
ticks_until : SchedulePriority → Scheduler → ℕ
ticks_until priority_high s = if ltb s.high_t 6 then 1 else (3 - s.normal_t) + (1 - s.low_t) + 1
ticks_until priority_normal s =
    if ltb s.normal_t 3 then (6 - s.high_t) + 1 else (6 - s.high_t) + (1 - s.low_t) + 8
ticks_until priority_low s =
    if ltb s.low_t 1
    then (6 - s.high_t) + (3 - s.normal_t) + 1
    else (6 - s.high_t) + (3 - s.normal_t) + 11

abbrev pub patience : SchedulePriority → ℕ
patience priority_high = 5
patience priority_normal = 15
patience priority_low = 20

ticks_until-patience : (p : SchedulePriority) (s : Scheduler) → ticks_until p s ≤ patience p
unfolding ticks_until
ticks_until-patience priority_high s = ground arith
ticks_until-patience priority_normal s = ground arith
ticks_until-patience priority_low s = ground arith

ticks_until-pos : (p : SchedulePriority) (s : Scheduler) → 0 < ticks_until p s
unfolding ticks_until
ticks_until-pos priority_high s = ground arith
ticks_until-pos priority_normal s = ground arith
ticks_until-pos priority_low s = ground arith

-- A tick keeps the quotas.
choose_priority-WithinQuota : (s : Scheduler) → WithinQuota s → WithinQuota (choose_priority s)
unfolding choose_priority
choose_priority-WithinQuota s w = ground arith

tick_progress :
    (p : SchedulePriority) (s : Scheduler)
    → WithinQuota s
    → 0 < (queue_of p s).count
    → ((choose_priority s).current_schedule_priority ≡ p)
      ⊎ (ticks_until p (choose_priority s) < ticks_until p s)
unfolding choose_priority ticks_until
tick_progress priority_high s w h = ground arith
tick_progress priority_normal s w h = ground arith
tick_progress priority_low s w h = ground arith

-- The quotas of two states are the same.
record SameQuota (s t : Scheduler) : Type 0 where
  high_same : t.high_t ≡ s.high_t
  normal_same : t.normal_t ≡ s.normal_t
  low_same : t.low_t ≡ s.low_t

ticks_until-same :
    (p : SchedulePriority) (s t : Scheduler) → SameQuota s t → ticks_until p t ≡ ticks_until p s
unfolding ticks_until
ticks_until-same priority_high s t e = rw (e.high_same, e.normal_same, e.low_same) refl
ticks_until-same priority_normal s t e = rw (e.high_same, e.normal_same, e.low_same) refl
ticks_until-same priority_low s t e = rw (e.high_same, e.normal_same, e.low_same) refl

WithinQuota-same : (s t : Scheduler) → SameQuota s t → WithinQuota s → WithinQuota t
WithinQuota-same s t e w = omega arith

Chosen-soon :
    (p : SchedulePriority) (s : Scheduler) (rest : List Scheduler)
    → Ticks (s ∷ rest)
    → AlwaysWaiting p (s ∷ rest)
    → WithinQuota s
    → ticks_until p s ≤ suc (length rest)
    → Chosen p (s ∷ rest)
Chosen-soon p s [] (last _) (waits _ _ h a) w le = elim (tick_progress p s w h) [
  | inl c ↦ now s [] c
  | inr d ↦ absurd (omega (arith, d, le, ticks_until-pos p (choose_priority s)))
]
Chosen-soon p s (t ∷ rest) (more _ _ _ x y z ts) (waits _ _ h a) w le =
    let same : SameQuota (choose_priority s) t = record {
      high_same = x;
      normal_same = y;
      low_same = z;
    } in
    elim (tick_progress p s w h) [
      | inl c ↦ now s (t ∷ rest) c
      | inr d ↦ later s (t ∷ rest) (
          Chosen-soon p t rest ts a (WithinQuota-same _ t same (choose_priority-WithinQuota s w))
            (omega (arith, d, le, ticks_until-same p (choose_priority s) t same)))
    ]

-- No queue starves: one that holds a thread at each of 5 (high), 15 (normal) or 20 (low) ticks is
-- chosen at one of them, whatever happens to the queues between the ticks.
pub AlwaysWaiting-Chosen :
    (p : SchedulePriority) (s : Scheduler) (rest : List Scheduler)
    → WithinQuota s
    → Ticks (s ∷ rest)
    → AlwaysWaiting p (s ∷ rest)
    → patience p ≤ length (s ∷ rest)
    → Chosen p (s ∷ rest)
AlwaysWaiting-Chosen p s rest w ts a le =
    Chosen-soon p s rest ts a w (omega (arith, le, ticks_until-patience p s))
