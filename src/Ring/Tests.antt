-- ===== src/Ring/Tests.antt =====
-- A ring queue with room for two items, and the theorems on it.
use mylysos.Base.{ℕ, ◌≡◌, refl, true, false, none, some, List, [], ◌∷◌, arith, update}
use mylysos.Ring.{RingQueue, next_index, pop_item, push_item, empty_queue}
use mylysos.Ring.Fifo.{
  Op, push, pop, pushed, popped, ring_replies, fifo_replies, contents, IsValid, ring-fifo,
  empty_queue-IsValid,
}

abbrev queue : RingQueue ℕ
queue = empty_queue (λ i. 0)

abbrev trace : List (Op ℕ)
trace = push 5 ∷ push 6 ∷ push 7 ∷ pop ∷ push 8 ∷ pop ∷ pop ∷ pop ∷ []

replies :
    ring_replies 2 queue trace
    ≡ pushed true
      ∷ pushed true
      ∷ pushed false
      ∷ popped (some 5)
      ∷ pushed true
      ∷ popped (some 6)
      ∷ popped (some 8)
      ∷ popped none
      ∷ []
unfolding ring_replies push_item pop_item next_index update
replies = refl

queue-IsValid : IsValid 2 queue
queue-IsValid = (empty_queue-IsValid 2 (omega arith) (λ i. 0) (omega arith)).0

-- The queue after one push.
abbrev queue_of_one : RingQueue ℕ
queue_of_one = (push_item 2 5 queue).1

ring-fifo_example : ring_replies 2 queue trace ≡ fifo_replies 2 (contents 2 queue) trace
ring-fifo_example = ring-fifo 2 (omega arith) trace queue queue-IsValid
