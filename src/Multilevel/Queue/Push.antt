-- ===== src/Multilevel/Queue/Push.antt =====
-- PspPushScheduleData puts a thread at the end of its queue.
use mathlib.Core.Path.{subst}
use mylysos.Base.{
  ℕ, ◌<◌, ◌^◌, ◌≡◌, ◌≢◌, refl, sym, ap, ◌∙◌, [], ◌∷◌, ◌++◌, length, arith, update, update_self,
  update_ne, ◌==◌, false, length-append,
}
use mylysos.Process.Layout.{Absent}
use mylysos.Process.Create.Valid.{Distinct, Distinct-snoc}
use mylysos.Multilevel.{PriorityQueueData, PriorityQueue, linked_nodes, linked_queue}
use mylysos.Multilevel.Queue.{Nodes, addresses, Chain, last_address, EndsAt, Holds}
use mylysos.Multilevel.Queue.Chain.{
  Linked, Chain-snoc, last_address-Absent, addresses-snoc, EndsAt-snoc,
}

module _ (node : ℕ → PriorityQueueData) (q : PriorityQueue) (a t : ℕ) (nonnull : a ≢ 0) where
  linked_nodes-empty :
      q.front ≡ 0 → linked_nodes node q a t ≡ update node a (record { thread = t; next = 0 })
  unfolding linked_nodes
  linked_nodes-empty e = rw e refl

  linked_nodes-Linked : q.front ≢ 0 → q.end ≢ a → Linked node (linked_nodes node q a t) a t q.end
  unfolding linked_nodes
  linked_nodes-Linked n ne =
      let first = update node a (record { thread = t; next = 0 }) in
      let test : (q.front == 0) ≡ false = ground (arith, n) in
      let kept : first q.end ≡ node q.end =
        update_ne node a (record { thread = t; next = 0 }) q.end (λ e. ne e) in
      let last = record (first q.end) { next = a } in
      rw test (record {
        fresh =
            update_ne first q.end last a (λ e. ne (sym e))
            ∙ update_self node a (record { thread = t; next = 0 });
        linked =
            update_self first q.end last
            ∙ ap (λ (x : PriorityQueueData). record x { next = a }) kept;
        others = λ x na ne'. update_ne first q.end last x ne' ∙ update_ne node a _ x na;
      })

  -- The queue and its nodes with a node at the end.
  pub Holds-push :
      (ns : Nodes)
      → Holds node q ns
      → Absent a (addresses ns)
      → length ns < 2 ^ 31
      → Holds (linked_nodes node q a t) (linked_queue q a) (ns ++ (a, t) ∷ [])
  unfolding Chain EndsAt addresses Absent linked_queue Distinct last_address
  Holds-push [] h absent small =
      let none_there : q.front ≡ 0 = h.chain in
      record {
        chain =
            rw (linked_nodes-empty none_there, none_there)
              (
                refl,
                nonnull,
                ap (λ (x : PriorityQueueData). x.thread)
                    (update_self node a (record { thread = t; next = 0 })),
                ap (λ (x : PriorityQueueData). x.next)
                    (update_self node a (record { thread = t; next = 0 })),
              );
        ends = refl;
        counted = omega (arith, h.counted);
        distinct = (tt, tt);
      }
  Holds-push ((b, u) ∷ ns) h absent small =
      let at : q.front ≡ b = h.chain.0 in
      let full : q.front ≢ 0 = λ z. h.chain.1 (sym at ∙ z) in
      let test : (q.front == 0) ≡ false = ground (arith, full) in
      let new_end : q.end ≢ a = λ z. last_address-Absent a b ns absent (sym z ∙ h.ends) in
      let linked =
        subst (Linked node (linked_nodes node q a t) a t) h.ends
          (linked_nodes-Linked full new_end) in
      record {
        chain =
            rw test (Chain-snoc node _ a t nonnull b u ns q.front linked absent h.distinct h.chain);
        ends = EndsAt-snoc ((b, u) ∷ ns) a t;
        counted = omega (arith, h.counted, small, length-append ns ((a, t) ∷ []));
        distinct =
            subst Distinct (sym (addresses-snoc ((b, u) ∷ ns) a t))
              (Distinct-snoc (b ∷ addresses ns) a absent h.distinct);
      }

  -- Nodes that are not in the queue stay as they are.
  pub linked_nodes-others :
      (ns : Nodes) (x : ℕ)
      → Holds node q ns
      → x ≢ a
      → Absent x (addresses ns)
      → Absent a (addresses ns)
      → linked_nodes node q a t x ≡ node x
  unfolding Chain EndsAt addresses
  linked_nodes-others [] x h n absent new =
      ap (λ f. f x) (linked_nodes-empty h.chain)
      ∙ update_ne node a (record { thread = t; next = 0 }) x n
  linked_nodes-others ((b, u) ∷ ns) x h n absent new =
      let full : q.front ≢ 0 = λ z. h.chain.1 (sym h.chain.0 ∙ z) in
      let new_end : q.end ≢ a = λ z. last_address-Absent a b ns new (sym z ∙ h.ends) in
      (linked_nodes-Linked full new_end).others x n
        (λ z. last_address-Absent x b ns absent (z ∙ h.ends))
