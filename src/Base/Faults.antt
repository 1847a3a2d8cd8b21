-- ===== src/Base/Faults.antt =====
-- Runs of C code over a state: a normal return, a fault (a read or write outside the objects of
-- the model, such as through a null pointer), or a loop that has used up its fuel.
use mylysos.Base.Tests.{if◌then◌else◌}
use mathlib.Core.Bool.{Bool, true, false}
use mathlib.Core.Path.{◌≡◌, refl, ap, ◌∙◌}

pub data Run (S A : Type 0) : Type 0 where
  ok : A → S → Run S A
  fault : Run S A
  hung : Run S A

-- Code that reads and writes a state `S` and returns an `A`.
abbrev pub Cmd : Type 0 → Type 0 → Type 0
Cmd S A = S → Run S A

abbrev pub pure : {S A : Type 0} → A → Cmd S A
pure = ok

module _ {S A B : Type 0} where
  infixl 5 ◌>>=◌ ◌>>◌
  abbrev pub ◌>>=◌ : Cmd S A → (A → Cmd S B) → Cmd S B
  ◌>>=◌ m k s = elim (m s) [ ok a s' ↦ k a s' | fault ↦ fault | hung ↦ hung ]

  abbrev pub ◌>>◌ : Cmd S A → Cmd S B → Cmd S B
  m >> k = m >>= λ _. k

-- The run returns, with a value and a state that satisfy `P`.
abbrev pub Returns : {S A : Type 0} → (A → S → Type 0) → Run S A → Type 0
Returns P (ok a s) = P a s
Returns P fault = ⊥
Returns P hung = ⊥

-- A postcondition can be replaced by what follows from it, at the value and state returned.
pub Returns-map :
    {S A : Type 0} (P Q : A → S → Type 0) (r : Run S A)
    → Returns P r
    → ((a : A) (s : S) → r ≡ ok a s → P a s → Q a s)
    → Returns Q r
Returns-map P Q (ok a s) h f = f a s refl h
Returns-map P Q fault h f = h
Returns-map P Q hung h f = h

-- A run after another, by what the first one returns.
pub Returns-bind :
    {S A B : Type 0} (P : A → S → Type 0) (Q : B → S → Type 0) (m : Cmd S A) (f : A → Cmd S B)
    (s : S)
    → Returns P (m s)
    → ((a : A) (s' : S) → P a s' → Returns Q (f a s'))
    → Returns Q ((m >>= f) s)
Returns-bind {S} {A} {B} P Q m f s h g = go (m s) h
  where
    go :
        (r : Run S A)
        → Returns P r
        → Returns Q (elim r [ ok a s' ↦ f a s' | fault ↦ fault | hung ↦ hung ])
    go (ok a s') h = g a s' h
    go fault h = h
    go hung h = h

pub bind-ok :
    {S A B : Type 0} (m : Cmd S A) (f : A → Cmd S B) (s : S) (a : A) (s' : S)
    → m s ≡ ok a s'
    → (m >>= f) s ≡ f a s'
bind-ok {S} {A} {B} m f s a s' e =
    ap
      (λ (r : Run S A). elim r as (λ x. Run S B) [ ok a s' ↦ f a s' | fault ↦ fault | hung ↦ hung ])
      e

-- The outcome of a run that returns.
pub Returns-ok :
    {S A : Type 0} (P : A → S → Type 0) (r : Run S A)
    → Returns P r
    → (a : A) × (s : S) × (r ≡ ok a s) × P a s
Returns-ok P (ok a s) h = (a, s, refl, h)
Returns-ok P fault h = absurd h
Returns-ok P hung h = absurd h

-- If the run returns, its value and state satisfy `P`.
abbrev pub After : {S A : Type 0} → (A → S → Type 0) → Run S A → Type 0
After P (ok a s) = P a s
After P fault = Unit
After P hung = Unit

-- Both what a run that returns satisfies, and what it satisfies if it returns.
pub Returns-After :
    {S A : Type 0} (P Q : A → S → Type 0) (r : Run S A)
    → Returns P r
    → After Q r
    → Returns (λ a s. P a s × Q a s) r
Returns-After P Q (ok a s) h g = (h, g)
Returns-After P Q fault h g = h
Returns-After P Q hung h g = h

-- The function leaves a part of the state as it is.
abbrev pub Keeps : {S A B : Type 0} → (S → B) → Cmd S A → Type 0
Keeps f m = (s : _) → After (λ a s'. f s' ≡ f s) (m s)

pub Keeps-bind :
    {S A B C : Type 0} (f : S → C) (m : Cmd S A) (g : A → Cmd S B)
    → Keeps f m
    → ((a : A) → Keeps f (g a))
    → Keeps f (m >>= g)
Keeps-bind {S} {A} {B} f m g km kg s = go (m s) (km s)
  where
    carry :
        (x y : S)
        → f y ≡ f x
        → (r : Run S B) → After (λ b s'. f s' ≡ f y) r
        → After (λ b s'. f s' ≡ f x) r
    carry x y e (ok b s') h = h ∙ e
    carry x y e fault h = tt
    carry x y e hung h = tt

    go :
        (r : Run S A)
        → After (λ a s'. f s' ≡ f s) r
        → After (λ b s'. f s' ≡ f s) (elim r [ ok a s' ↦ g a s' | fault ↦ fault | hung ↦ hung ])
    go (ok a s') h = carry s s' h (g a s') (kg a s')
    go fault h = tt
    go hung h = tt

pub Keeps-if :
    {S A B : Type 0} (f : S → B) (b : Bool) (m n : Cmd S A)
    → Keeps f m
    → Keeps f n
    → Keeps f (if b then m else n)
Keeps-if f true m n km kn = km
Keeps-if f false m n km kn = kn

pub bind-pure : {S : Type 0} (m : Cmd S (Unit {0})) (s : S) → (m >> pure tt) s ≡ m s
bind-pure {S} m s = go (m s)
  where
    go :
        (r : Run S (Unit {0}))
        → (elim r as (λ x. Run S (Unit {0})) [ ok a s' ↦ ok tt s' | fault ↦ fault | hung ↦ hung ])
          ≡ r
    go (ok a s') = refl
    go fault = refl
    go hung = refl
