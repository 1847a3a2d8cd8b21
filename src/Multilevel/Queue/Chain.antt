-- ===== src/Multilevel/Queue/Chain.antt =====
-- Lists of nodes under changes of the store.
use mathlib.Core.Path.{subst}
use mylysos.Base.{ℕ, ◌≡◌, ◌≢◌, refl, sym, ap, ◌∙◌, [], ◌∷◌, ◌++◌}
use mylysos.Process.Layout.{Absent}
use mylysos.Process.Layout.Every.{Every}
use mylysos.Process.Create.Valid.{Distinct}
use mylysos.Multilevel.{PriorityQueueData}
use mylysos.Multilevel.Queue.{Nodes, addresses, Chain, last_address, EndsAt}

-- A list whose nodes stay as they are.
pub Chain-frame :
    (node node' : ℕ → PriorityQueueData) (ns : Nodes) (h : ℕ)
    → Every (λ a. node' a ≡ node a) (addresses ns)
    → Chain node h ns
    → Chain node' h ns
unfolding Chain addresses Every
Chain-frame node node' [] h same c = c
Chain-frame node node' ((a, t) ∷ ns) h (e, same) (i, n, th, c) = (
  i,
  n,
  ap (λ (x : PriorityQueueData). x.thread) e ∙ th,
  Chain-frame node node' ns _ same
      (subst (λ x. Chain node x ns) (ap (λ (x : PriorityQueueData). x.next) (sym e)) c),
)

-- The node `a` with the thread `t` is written, and the node `e` linked to it.
pub record Linked (node node' : ℕ → PriorityQueueData) (a t e : ℕ) : Type 0 where
  pub fresh : node' a ≡ record { thread = t; next = 0 }
  pub linked : node' e ≡ record (node e) { next = a }
  pub others : (x : ℕ) → x ≢ a → x ≢ e → node' x ≡ node x

pub last_address-Absent :
    (b : ℕ) (x : ℕ) (ns : Nodes) → Absent b (x ∷ addresses ns) → b ≢ last_address x ns
unfolding Absent addresses last_address
last_address-Absent b x [] (n, r) = n
last_address-Absent b x ((c, w) ∷ ns) (n, r) = last_address-Absent b c ns r

module _ (node node' : ℕ → PriorityQueueData) (a t : ℕ) (nonnull : a ≢ 0) where
  single : node' a ≡ record { thread = t; next = 0 } → Chain node' a ((a, t) ∷ [])
  unfolding Chain
  single e = (
    refl,
    nonnull,
    ap (λ (x : PriorityQueueData). x.thread) e,
    ap (λ (x : PriorityQueueData). x.next) e,
  )

  pub Chain-snoc :
      (b u : ℕ) (ns : Nodes) (h : ℕ)
      → Linked node node' a t (last_address b ns)
      → Absent a (b ∷ addresses ns)
      → Distinct (b ∷ addresses ns)
      → Chain node h ((b, u) ∷ ns)
      → Chain node' h (((b, u) ∷ ns) ++ (a, t) ∷ [])
  unfolding Chain addresses last_address Absent Distinct
  Chain-snoc b u [] h l (ne, r) d (i, n, th, c) = (
    i,
    n,
    ap (λ (x : PriorityQueueData). x.thread) l.linked ∙ th,
    subst (λ x. Chain node' x ((a, t) ∷ [])) (ap (λ (x : PriorityQueueData). x.next) (sym l.linked))
        (single l.fresh),
  )
  Chain-snoc b u ((c, w) ∷ ns) h l (ne, r) (d, ds) (i, n, th, k) =
      let kept : node' b ≡ node b = l.others b (λ e. ne (sym e)) (last_address-Absent b c ns d) in
      (
        i,
        n,
        ap (λ (x : PriorityQueueData). x.thread) kept ∙ th,
        subst (λ x. Chain node' x (((c, w) ∷ ns) ++ (a, t) ∷ []))
            (ap (λ (x : PriorityQueueData). x.next) (sym kept)) (Chain-snoc c w ns _ l r ds k),
      )

-- What the lists of addresses are with a node behind them.
pub addresses-snoc : (ns : Nodes) (a t : ℕ) → addresses (ns ++ (a, t) ∷ []) ≡ addresses ns ++ a ∷ []
unfolding addresses
addresses-snoc [] a t = refl
addresses-snoc ((b, u) ∷ ns) a t = ap (λ xs. b ∷ xs) (addresses-snoc ns a t)

pub EndsAt-snoc : (ns : Nodes) (a t : ℕ) → EndsAt a (ns ++ (a, t) ∷ [])
unfolding EndsAt last_address
EndsAt-snoc [] a t = refl
EndsAt-snoc ((b, u) ∷ ns) a t = sym (last-snoc b ns)
  where
    last-snoc : (d : ℕ) (ns : Nodes) → last_address d (ns ++ (a, t) ∷ []) ≡ a
    last-snoc d [] = refl
    last-snoc d ((c, w) ∷ ns) = last-snoc c ns
