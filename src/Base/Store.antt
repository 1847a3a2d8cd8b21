-- ===== src/Base/Store.antt =====
-- Memory as a function from an index or an address to what is stored there.
use Prim.Native.Nat.{ℕ}
use mathlib.Core.Path.{◌≡◌, sym, ap, ◌∙◌}
use native.Mathlib.Decide.{ℕ_discrete}
use mathlib.Core.Logic.{◌≢◌}
use native.Mathlib.Omega.{arith}
use mylysos.Base.Tests.{◌==◌, if◌then◌else◌}

module _ {ℓ} {A : Type ℓ} where
  unfoldable pub update : (ℕ → A) → ℕ → A → ℕ → A
  update f i v j = if j == i then v else f j

  pub update_self : (f : ℕ → A) (i : ℕ) (v : A) → update f i v i ≡ v
  unfolding update
  update_self f i v = ground arith

  pub update_ne : (f : ℕ → A) (i : ℕ) (v : A) (j : ℕ) → j ≢ i → update f i v j ≡ f j
  unfolding update
  update_ne f i v j h = ground arith

  pub update-update :
      (f : ℕ → A) (i : ℕ) (v w : A) (j : ℕ) → update (update f i v) i w j ≡ update f i w j
  unfolding update
  update-update f i v w j = ground arith

  -- A write that keeps what `g` reads.
  pub update_keep :
      {B : Type ℓ} (f : ℕ → A) (i : ℕ) (v : A) (g : A → B)
      → g v ≡ g (f i)
      → (j : ℕ) → g (update f i v j) ≡ g (f j)
  update_keep f i v g e j = elim (ℕ_discrete j i) [
    | yes here ↦
        ap (λ n. g (update f i v n)) here
        ∙ ap g (update_self f i v)
        ∙ e
        ∙ ap (λ n. g (f n)) (sym here)
    | no there ↦ ap g (update_ne f i v j there)
  ]
