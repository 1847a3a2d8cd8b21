-- ===== src/Ring/Fifo.antt =====
-- A ring queue is a first-in first-out queue with room for `size` items.
use mathlib.Core.Path.{subst}
use native.Mathlib.Decide.{dec_lt}
use mylysos.Base.{
  ℕ, zero, suc, ◌+◌, ◌≤◌, ◌<◌, ◌≡◌, refl, sym, ap, ◌∙◌, ◌⊎◌, inl, Bool, true, false, Option, none,
  some, List, [], ◌∷◌, ◌++◌, length, arith, ltb, update, update_self, update_ne, if◌then◌else◌,
}
use mylysos.Ring.{RingQueue, next_index, pop_item, push_item, empty_queue}

-- An operation on a queue, and what it returns.
pub data Op (A : Type 0) : Type 0 where
  push : A → Op A
  pop : Op A

pub data Reply (A : Type 0) : Type 0 where
  pushed : Bool → Reply A
  popped : Option A → Reply A

module _ (size : ℕ) where
  -- `t` is the index that stands `n` places behind `h`.
  abbrev pub Behind : (h n t : ℕ) → Type 0
  Behind h n t = (h + n ≡ t) ⊎ (h + n ≡ t + size)

  next-Behind :
      (h k t : ℕ)
      → size ≤ 255
      → h < size
      → t < size
      → Behind h (suc k) t
      → (next_index size h < size) × Behind (next_index size h) k t
  unfolding next_index
  next-Behind h k t z p q b = ground arith

  Behind-next :
      (h k t : ℕ)
      → size ≤ 255
      → h < size
      → k < size
      → t < size
      → Behind h k t
      → (next_index size t < size) × Behind h (suc k) (next_index size t)
  unfolding next_index
  Behind-next h k t z p l q b = ground arith

module _ {A : Type 0} (size : ℕ) where
  -- The operations on the ring queue, one after the other.
  unfoldable pub ring_replies : RingQueue A → List (Op A) → List (Reply A)
  ring_replies q [] = []
  ring_replies q (push x ∷ ops) = let (r, q) = push_item size x q in pushed r ∷ ring_replies q ops
  ring_replies q (pop ∷ ops) = let (r, q) = pop_item size q in popped r ∷ ring_replies q ops

  -- The same operations on a list, the first item to leave at its head.
  unfoldable pub fifo_replies : List A → List (Op A) → List (Reply A)
  fifo_replies xs [] = []
  fifo_replies xs (push x ∷ ops) =
      if ltb (length xs) size
      then pushed true ∷ fifo_replies (xs ++ x ∷ []) ops
      else pushed false ∷ fifo_replies xs ops
  fifo_replies [] (pop ∷ ops) = popped none ∷ fifo_replies [] ops
  fifo_replies (x ∷ xs) (pop ∷ ops) = popped (some x) ∷ fifo_replies xs ops

  -- The `n` items from index `h` on.
  unfoldable pub items : (ℕ → A) → (h n : ℕ) → List A
  items f h zero = []
  items f h (suc n) = f h ∷ items f (next_index size h) n

  -- What the queue holds, first in first.
  unfoldable pub contents : RingQueue A → List A
  contents q = items q.list q.head q.count

  pub record IsValid (q : RingQueue A) : Type 0 where
    pub head_lt : q.head < size
    pub tail_lt : q.tail < size
    pub count_le : q.count ≤ size
    pub tail_behind : Behind size q.head q.count q.tail

  module _ (small : size ≤ 255) where
    length-items : (f : ℕ → A) (h n : ℕ) → length (items f h n) ≡ n
    unfolding items
    length-items f h zero = refl
    length-items f h (suc n) = ap suc (length-items f (next_index size h) n)

    -- The item at the end of a longer stretch.
    items-suc :
        (f : ℕ → A) (n h t : ℕ)
        → h < size
        → t < size
        → n < size
        → Behind size h n t
        → items f h (suc n) ≡ items f h n ++ f t ∷ []
    unfolding items
    items-suc f zero h t p q r b = let e : h ≡ t = omega arith in rw e refl
    items-suc f (suc n) h t p q r b =
        let (lt, b') = next-Behind size h n t small p q b in
        ap (λ xs. f h ∷ xs) (items-suc f n (next_index size h) t lt q (omega arith) b')

    -- A write behind the stretch.
    items-update :
        (f : ℕ → A) (x : A) (n k h t : ℕ)
        → h < size
        → t < size
        → n ≤ k
        → k < size
        → Behind size h k t
        → items (update f t x) h n ≡ items f h n
    unfolding items
    items-update f x zero k h t p q l r b = refl
    items-update f x (suc n) zero h t p q l r b = absurd (omega arith)
    items-update f x (suc n) (suc k) h t p q l r b =
        let (lt, b') = next-Behind size h k t small p q b in
        let first : update f t x h ≡ f h = update_ne f t x h (λ e. omega arith) in
        let rest = items-update f x n k (next_index size h) t lt q (omega arith) (omega arith) b' in
        cc

    push-room :
        (x : A) (q : RingQueue A)
        → IsValid q
        → q.count < size
        → push_item size x q ≡ (
          true,
          record q {
            count = suc q.count;
            list = update q.list q.tail x;
            tail = next_index size q.tail;
          },
        )
    unfolding push_item
    push-room x q v h = ground arith

    push-full : (x : A) (q : RingQueue A) → size ≤ q.count → push_item size x q ≡ (false, q)
    unfolding push_item
    push-full x q h = ground arith

    pop-some :
        (n : ℕ) (q : RingQueue A)
        → q.count ≡ suc n
        → q.count ≤ 255
        → pop_item size q
          ≡ (some (q.list q.head), record q { count = n; head = next_index size q.head })
    unfolding pop_item
    pop-some n q e h = ground arith

    pop-none : (q : RingQueue A) → q.count ≡ 0 → pop_item size q ≡ (none, q)
    unfolding pop_item
    pop-none q e = ground arith

    pub record Pushed (x : A) (q : RingQueue A) (p : Bool × RingQueue A) : Type 0 where
      pub valid : IsValid p.1
      pub reply : p.0 ≡ ltb (length (contents q)) size
      pub holds : contents p.1 ≡ (if p.0 then contents q ++ x ∷ [] else contents q)

    -- A push adds the item at the end if there is room, and changes nothing if there is none.
    pub push_item-contents : (x : A) (q : RingQueue A) → IsValid q → Pushed x q (push_item size x q)
    unfolding contents
    push_item-contents x q v = elim (dec_lt q.count size) [
      | yes room ↦
          let (lt, b) =
            Behind-next size q.head q.count q.tail small v.head_lt room v.tail_lt v.tail_behind in
          let same =
            items-update q.list x q.count q.count q.head q.tail v.head_lt v.tail_lt (omega arith)
              room v.tail_behind in
          let more =
            items-suc (update q.list q.tail x) q.count q.head q.tail v.head_lt v.tail_lt room
              v.tail_behind in
          let len = length-items q.list q.head q.count in
          let at = update_self q.list q.tail x in
          subst (Pushed x q) (sym (push-room x q v room)) (record {
            valid = record {
              head_lt = v.head_lt;
              tail_lt = lt;
              count_le = omega arith;
              tail_behind = b;
            };
            reply = ground (arith, len);
            holds = more ∙ cc;
          })
      | no full ↦
          let len = length-items q.list q.head q.count in
          subst (Pushed x q) (sym (push-full x q (omega arith)))
            (record { valid = v; reply = ground (arith, len); holds = refl })
    ]

    pub data Popped (q : RingQueue A) (p : Option A × RingQueue A) : Type 0 where
      nothing : IsValid p.1 → p.0 ≡ none → p.1 ≡ q → contents q ≡ [] → Popped q p
      first : (x : A) → IsValid p.1 → p.0 ≡ some x → contents q ≡ x ∷ contents p.1 → Popped q p

    Popped-IsValid : (q : RingQueue A) (p : Option A × RingQueue A) → Popped q p → IsValid p.1
    Popped-IsValid q p (nothing v r e c) = v
    Popped-IsValid q p (first x v r c) = v

    -- A pop takes the first item; on an empty queue it changes nothing.
    pub pop_item-contents : (q : RingQueue A) → IsValid q → Popped q (pop_item size q)
    unfolding contents items
    pop_item-contents q v = go q.count refl
      where
        go : (n : ℕ) → q.count ≡ n → Popped q (pop_item size q)
        go zero e =
            subst (Popped q) (sym (pop-none q e)) (nothing v refl refl (ap (items q.list q.head) e))
        go (suc n) e =
            let (lt, b) =
              next-Behind size q.head n q.tail small v.head_lt v.tail_lt
                (ground (arith, e, v.tail_behind)) in
            subst (Popped q) (sym (pop-some n q e (omega (arith, v.count_le)))) (
              first (q.list q.head)
                (record {
                  head_lt = lt;
                  tail_lt = v.tail_lt;
                  count_le = omega (arith, v.count_le);
                  tail_behind = b;
                })
                refl (ap (items q.list q.head) e))

    replies-push :
        (x : A) (ops : List (Op A)) (q : RingQueue A) (p : Bool × RingQueue A)
        → Pushed x q p
        → ring_replies p.1 ops ≡ fifo_replies (contents p.1) ops
        → pushed p.0 ∷ ring_replies p.1 ops ≡ fifo_replies (contents q) (push x ∷ ops)
    unfolding fifo_replies
    replies-push x ops q (true, q') p rest = ground (arith, p.reply, p.holds, rest)
    replies-push x ops q (false, q') p rest = ground (arith, p.reply, p.holds, rest)

    replies-pop :
        (ops : List (Op A)) (q : RingQueue A) (p : Option A × RingQueue A)
        → Popped q p
        → ring_replies p.1 ops ≡ fifo_replies (contents p.1) ops
        → popped p.0 ∷ ring_replies p.1 ops ≡ fifo_replies (contents q) (pop ∷ ops)
    unfolding fifo_replies
    replies-pop ops q p (first x v r c) rest = rw (c, r) (ap (λ r. popped (some x) ∷ r) rest)
    replies-pop ops q p (nothing v r e c) rest =
        let empty : contents p.1 ≡ [] = ap contents e ∙ c in
        rw (c, r) (ap (λ r. popped none ∷ r) (rest ∙ ap (λ xs. fifo_replies xs ops) empty))

    -- From a valid queue on, every sequence of pushes and pops returns what it returns on the list
    -- of the queue's contents with room for `size` items.
    pub ring-fifo :
        (ops : List (Op A)) (q : RingQueue A)
        → IsValid q
        → ring_replies q ops ≡ fifo_replies (contents q) ops
    unfolding ring_replies fifo_replies
    ring-fifo [] q v = refl
    ring-fifo (push x ∷ ops) q v =
        let pushing = push_item-contents x q v in
        replies-push x ops q (push_item size x q) pushing
          (ring-fifo ops (push_item size x q).1 pushing.valid)
    ring-fifo (pop ∷ ops) q v =
        let popping = pop_item-contents q v in
        replies-pop ops q (pop_item size q) popping
          (ring-fifo ops (pop_item size q).1 (Popped-IsValid q (pop_item size q) popping))

    -- The empty queue is valid, and holds nothing.
    pub empty_queue-IsValid :
        (f : ℕ → A) → 0 < size → IsValid (empty_queue f) × (contents (empty_queue f) ≡ [])
    unfolding contents items
    empty_queue-IsValid f h =
        (record { head_lt = h; tail_lt = h; count_le = omega arith; tail_behind = inl refl }, refl)
