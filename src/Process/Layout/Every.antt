-- ===== src/Process/Layout/Every.antt =====
-- Changes of structures that no list holds, or of fields that the lists do not read.
use mathlib.Core.Path.{subst}
use mylysos.Base.{ℕ, ◌≡◌, ◌≢◌, sym, ap, ◌∙◌, List, [], ◌∷◌, ◌++◌, refl}
use mylysos.Process.{Kernel}
use mylysos.Process.Layout.{Layout, threads_of, handles_of, Threads, Processes, Absent}

unfoldable pub Every : (ℕ → Type 0) → List ℕ → Type 0
Every P [] = Unit
Every P (x ∷ xs) = P x × Every P xs

pub Every-append : (P : ℕ → Type 0) (xs ys : List ℕ) → Every P (xs ++ ys) → Every P xs × Every P ys
unfolding Every
Every-append P [] ys e = (tt, e)
Every-append P (x ∷ xs) ys (p, e) = let (a, b) = Every-append P xs ys e in ((p, a), b)

pub Every-join : (P : ℕ → Type 0) (xs ys : List ℕ) → Every P xs → Every P ys → Every P (xs ++ ys)
unfolding Every
Every-join P [] ys a b = b
Every-join P (x ∷ xs) ys (p, a) b = (p, Every-join P xs ys a b)

pub Every-all : (P : ℕ → Type 0) (xs : List ℕ) → ((x : ℕ) → P x) → Every P xs
unfolding Every
Every-all P [] f = tt
Every-all P (x ∷ xs) f = (f x, Every-all P xs f)

pub Every-Absent : (a : ℕ) (xs : List ℕ) → Absent a xs → Every (λ x. a ≢ x) xs
unfolding Every Absent
Every-Absent a [] h = tt
Every-Absent a (x ∷ xs) (n, h) = (n, Every-Absent a xs h)

pub Absent-Every : (a : ℕ) (xs : List ℕ) → Every (λ x. a ≢ x) xs → Absent a xs
unfolding Every Absent
Absent-Every a [] h = tt
Absent-Every a (x ∷ xs) (n, h) = (n, Absent-Every a xs h)

-- The threads of one process in a layout.
pub Every-replace :
    (P : ℕ → Type 0) (pre post : Layout) (p : ℕ) (ts us : List ℕ)
    → Every P us
    → Every P (threads_of (pre ++ (p, ts) ∷ post))
    → Every P (threads_of (pre ++ (p, us) ∷ post))
unfolding threads_of
Every-replace P [] post p ts us u e =
    Every-join P us (threads_of post) u (Every-append P ts (threads_of post) e).1
Every-replace P ((q, vs) ∷ pre) post p ts us u e =
    let (a, b) = Every-append P vs (threads_of (pre ++ (p, ts) ∷ post)) e in
    Every-join P vs (threads_of (pre ++ (p, us) ∷ post)) a (Every-replace P pre post p ts us u b)

pub Every-within :
    (P : ℕ → Type 0) (pre post : Layout) (p : ℕ) (ts : List ℕ)
    → Every P (threads_of (pre ++ (p, ts) ∷ post))
    → Every P ts
unfolding threads_of
Every-within P [] post p ts e = (Every-append P ts (threads_of post) e).0
Every-within P ((q, vs) ∷ pre) post p ts e =
    Every-within P pre post p ts (Every-append P vs (threads_of (pre ++ (p, ts) ∷ post)) e).1

pub handles_of-replace :
    (pre post : Layout) (p : ℕ) (ts us : List ℕ)
    → handles_of (pre ++ (p, us) ∷ post) ≡ handles_of (pre ++ (p, ts) ∷ post)
unfolding handles_of
handles_of-replace [] post p ts us = refl
handles_of-replace ((q, vs) ∷ pre) post p ts us =
    ap (λ hs. q ∷ hs) (handles_of-replace pre post p ts us)

-- The threads with `P` keep the two fields that the lists read, and so does every process.
pub record Agree (k k' : Kernel) (P : ℕ → Type 0) : Type 0 where
  pub next_same : (t : ℕ) → P t → (k'.thread t).next_thread ≡ (k.thread t).next_thread
  pub parent_same : (t : ℕ) → P t → (k'.thread t).parent_process ≡ (k.thread t).parent_process
  pub head_same : (q : ℕ) → (k'.process q).head_thread ≡ (k.process q).head_thread
  pub link_same : (q : ℕ) → (k'.process q).next_process ≡ (k.process q).next_process

module _ (k k' : Kernel) (P : ℕ → Type 0) (agree : Agree k k' P) where
  Threads-agree : (p : ℕ) (ts : List ℕ) (h : ℕ) → Every P ts → Threads k p h ts → Threads k' p h ts
  unfolding Threads Every
  Threads-agree p [] h e c = c
  Threads-agree p (t ∷ ts) h (x, e) (i, n, o, c) = (
    i,
    n,
    agree.parent_same t x ∙ o,
    subst (λ y. Threads k' p y ts) (sym (agree.next_same t x)) (Threads-agree p ts _ e c),
  )

  pub Processes-agree :
      (l : Layout) (h : ℕ) → Every P (threads_of l) → Processes k h l → Processes k' h l
  unfolding Processes threads_of
  Processes-agree [] h e c = c
  Processes-agree ((p, ts) ∷ l) h e (i, n, d, c) =
      let (a, b) = Every-append P ts (threads_of l) e in
      (
        i,
        n,
        subst (λ y. Threads k' p y ts) (sym (agree.head_same p)) (Threads-agree p ts _ a d),
        subst (λ y. Processes k' y l) (sym (agree.link_same p)) (Processes-agree l _ b c),
      )

pub Every-map : (P Q : ℕ → Type 0) (xs : List ℕ) → ((x : ℕ) → P x → Q x) → Every P xs → Every Q xs
unfolding Every
Every-map P Q [] f e = tt
Every-map P Q (x ∷ xs) f (p, e) = (f x p, Every-map P Q xs f e)

pub Every-both :
    (P Q : ℕ → Type 0) (xs : List ℕ) → Every P xs → Every Q xs → Every (λ x. P x × Q x) xs
unfolding Every
Every-both P Q [] a b = tt
Every-both P Q (x ∷ xs) (p, a) (q, b) = ((p, q), Every-both P Q xs a b)
