-- ===== src/FileSystem/Fat.antt =====
-- The entries of a FAT12 table.
use native.Mathlib.Decide.{ℕ_discrete}
use mylysos.Base.{
  ℕ, ◌+◌, ◌*◌, ◌/◌, ◌%◌, ◌^◌, ◌<◌, ◌≡◌, ◌∙◌, ap, sym, refl, true, false, arith, ◌==◌, if◌then◌else◌,
  u16,
}
use mylysos.FileSystem.{get_next_cluster}

-- The bytes of the table with the entries `e`: two entries of 12 bits in three bytes.
unfoldable pub packed : (ℕ → ℕ) → ℕ → ℕ
packed e n =
    let k = n / 3 * 2 in
    if n % 3 == 0
    then e k % 2 ^ 8
    else if n % 3 == 1
    then e k / 2 ^ 8 + e (k + 1) % 2 ^ 4 * 2 ^ 4
    else e (k + 1) / 2 ^ 4

packed-0 : (e : ℕ → ℕ) (k : ℕ) → packed e (k * 3) ≡ e (k * 2) % 2 ^ 8
unfolding packed
packed-0 e k = let q : k * 3 / 3 ≡ k = omega arith in rw q (ground arith)

packed-1 :
    (e : ℕ → ℕ) (k : ℕ) → packed e (k * 3 + 1) ≡ e (k * 2) / 2 ^ 8 + e (k * 2 + 1) % 2 ^ 4 * 2 ^ 4
unfolding packed
packed-1 e k = let q : (k * 3 + 1) / 3 ≡ k = omega arith in rw q (ground arith)

packed-2 : (e : ℕ → ℕ) (k : ℕ) → packed e (k * 3 + 2) ≡ e (k * 2 + 1) / 2 ^ 4
unfolding packed
packed-2 e k = let q : (k * 3 + 2) / 3 ≡ k = omega arith in rw q (ground arith)

next-even :
    (fat : ℕ → ℕ) (c : ℕ)
    → c < 2 ^ 12
    → c % 2 ≡ 0
    → get_next_cluster fat c ≡ u16 (fat (c / 2 * 3) + fat (c / 2 * 3 + 1) * 2 ^ 8) % 2 ^ 12
unfolding get_next_cluster
next-even fat c h e =
    let test : (c % 2 == 1) ≡ false = ground (arith, e) in
    let small : u16 (c / 2 * 3) ≡ c / 2 * 3 = omega arith in rw (test, small) refl

next-odd :
    (fat : ℕ → ℕ) (c : ℕ)
    → c < 2 ^ 12
    → c % 2 ≡ 1
    → get_next_cluster fat c ≡ u16 (fat (c / 2 * 3 + 1) + fat (c / 2 * 3 + 2) * 2 ^ 8) / 2 ^ 4
unfolding get_next_cluster
next-odd fat c h e =
    let test : (c % 2 == 1) ≡ true = ground (arith, e) in
    let small : u16 (c / 2 * 3 + 1) ≡ c / 2 * 3 + 1 = omega arith in
    let behind : c / 2 * 3 + 1 + 1 ≡ c / 2 * 3 + 2 = omega arith in rw (test, small, behind) refl

pub get_next_cluster-packed :
    (e : ℕ → ℕ) (c : ℕ)
    → c < 2 ^ 12
    → e (c / 2 * 2) < 2 ^ 12
    → e (c / 2 * 2 + 1) < 2 ^ 12
    → get_next_cluster (packed e) c ≡ e c
get_next_cluster-packed e c h a b =
    let k = c / 2 in
    let p0 = packed-0 e k in
    let p1 = packed-1 e k in
    let p2 = packed-2 e k in
    elim (ℕ_discrete (c % 2) 0) [
      | yes even ↦
          let here : c ≡ k * 2 = omega (arith, even) in
          next-even (packed e) c h even ∙ omega (arith, p0, p1) ∙ ap e (sym here)
      | no odd ↦
          let here : c ≡ k * 2 + 1 = omega (arith, odd) in
          next-odd (packed e) c h (omega (arith, odd)) ∙ omega (arith, p1, p2) ∙ ap e (sym here)
    ]
