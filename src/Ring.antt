-- ===== src/Ring.antt =====
-- The ring queues of the kernel: the cutting lists of mylysos/process.c, the raw and the user key
-- queue of mylysos/kbddrv.c and the job queue of mylysos/fdddrv.c. The five pairs of functions
-- have the same body up to the size of the array and the type of its items, which are arguments
-- here. ENTER_CRITICAL_SECTION and EXIT_CRITICAL_SECTION make each call one step.
pub mod Fifo
mod Tests
use mylysos.Base.{
  ℕ, ◌+◌, Bool, true, false, Option, none, some, ltb, leb, ◌==◌, if◌then◌else◌, update, u8, sub8,
}

-- CUTTING_LIST, RAW_DATA_QUEUE, USER_DATA_QUEUE and FDD_JOB_ITEM_Q: three bytes and the array.
pub record RingQueue (A : Type 0) : Type 0 where
  pub count : ℕ
  pub head : ℕ
  pub tail : ℕ
  pub list : ℕ → A

-- `index++` on a byte, and back to 0 at the end of the array.
unfoldable pub next_index : (size : ℕ) → ℕ → ℕ
next_index size i = let i = u8 (i + 1) in if leb size i then 0 else i

module _ {A : Type 0} (size : ℕ) where
  -- PspPopCuttingItem and its like: the item that is written to *pItem, `none` for FALSE.
  unfoldable pub pop_item : RingQueue A → Option A × RingQueue A
  pop_item q = if q.count == 0 then (none, q) else (
    some (q.list q.head),
    record q { count = sub8 q.count 1; head = next_index size q.head },
  )

  -- PspPushCuttingItem and its like.
  unfoldable pub push_item : A → RingQueue A → Bool × RingQueue A
  push_item item q = if leb size q.count then (false, q) else (
    true,
    record q {
      count = u8 (q.count + 1);
      list = update q.list q.tail item;
      tail = next_index size q.tail;
    },
  )

-- The queue with which the drivers start: the three counters are 0.
abbrev pub empty_queue : {A : Type 0} → (ℕ → A) → RingQueue A
empty_queue list = record { count = 0; head = 0; tail = 0; list = list }
