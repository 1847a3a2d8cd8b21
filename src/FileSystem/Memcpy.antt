-- ===== src/FileSystem/Memcpy.antt =====
-- What memcpy writes.
use mylysos.Base.{
  ℕ, zero, suc, ◌+◌, ◌≤◌, ◌<◌, ◌≡◌, ◌⊎◌, inl, refl, ap, ◌∙◌, arith, update, update_self, update_ne,
}
use mylysos.FileSystem.{memcpy}

pub memcpy-outside :
    (n : ℕ) (src : ℕ → ℕ) (p q : ℕ) (m : ℕ → ℕ) (a : ℕ)
    → (a < q) ⊎ (q + n ≤ a)
    → memcpy n src p q m a ≡ m a
unfolding memcpy
memcpy-outside zero src p q m a o = refl
memcpy-outside (suc n) src p q m a o =
    memcpy-outside n src (p + 1) (q + 1) (update m q (src p)) a (ground (arith, o))
    ∙ update_ne m q (src p) a (λ e. omega (arith, e, o))

pub memcpy-inside :
    (n : ℕ) (src : ℕ → ℕ) (p q : ℕ) (m : ℕ → ℕ) (i : ℕ)
    → i < n
    → memcpy n src p q m (q + i) ≡ src (p + i)
unfolding memcpy
memcpy-inside zero src p q m i h = absurd (omega arith)
memcpy-inside (suc n) src p q m zero h =
    let a : q + 0 ≡ q = omega arith in
    let b : p ≡ p + 0 = omega arith in
    ap (memcpy n src (p + 1) (q + 1) (update m q (src p))) a
    ∙ memcpy-outside n src (p + 1) (q + 1) (update m q (src p)) q (inl (omega arith))
    ∙ update_self m q (src p)
    ∙ ap src b
memcpy-inside (suc n) src p q m (suc i) h =
    let a : q + suc i ≡ q + 1 + i = omega arith in
    let b : p + 1 + i ≡ p + suc i = omega arith in
    ap (memcpy n src (p + 1) (q + 1) (update m q (src p))) a
    ∙ memcpy-inside n src (p + 1) (q + 1) (update m q (src p)) i (omega arith)
    ∙ ap src b
