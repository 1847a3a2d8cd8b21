-- ===== src/Format/Digits.antt =====
-- The digits that the loop over a number writes, read back.
use native.Mathlib.Nat.{mul_comm, add-mul, mul_assoc}
use Prim.Native.Nat.pow
use mylysos.Base.{
  ℕ, zero, suc, ◌+◌, ◌-◌, ◌*◌, ◌/◌, ◌%◌, ◌^◌, ◌≤◌, ◌<◌, ◌≡◌, ◌≢◌, ◌⊎◌, inl, inr, refl, sym, ap, ◌∙◌,
  Bool, true, false, List, [], ◌∷◌, length, arith, if◌then◌else◌, some, ◌==◌, leb, Bool-cases,
}
use mylysos.Format.{Conversion, digit_char, put_digits}

-- The value of a digit, in either case of the letters.
unfoldable pub digit_value : ℕ → ℕ
digit_value c = if leb c b'9' then c - b'0' else if leb c b'F' then c - b'A' + 10 else c - b'a' + 10

-- The number that digits stand for.
unfoldable pub read_number : (base : ℕ) → List ℕ → ℕ
read_number base [] = 0
read_number base (c ∷ cs) = digit_value c * base ^ length cs + read_number base cs

pub digit_value-digit_char : (large : Bool) (d : ℕ) → d < 16 → digit_value (digit_char large d) ≡ d
unfolding digit_value digit_char
digit_value-digit_char true d h = ground arith
digit_value-digit_char false d h = ground arith

shift : (b q r p v : ℕ) → (q * b + r) * p + v ≡ q * (p * b) + (r * p + v)
shift b q r p v =
    let e0 = add-mul (q * b) r p in
    let e1 = mul_assoc q b p in let e2 = ap (λ t. q * t) (mul_comm b p) in omega (arith, e0, e1, e2)

-- A base that vsprintf knows.
pub data IsBase : ℕ → Type 0 where
  two : IsBase 2
  eight : IsBase 8
  ten : IsBase 10
  sixteen : IsBase 16

split : (b n : ℕ) → IsBase b → n / b * b + n % b ≡ n
split b n two = omega arith
split b n eight = omega arith
split b n ten = omega arith
split b n sixteen = omega arith

digit_small : (b n : ℕ) → IsBase b → n % b < 16
digit_small b n two = omega arith
digit_small b n eight = omega arith
digit_small b n ten = omega arith
digit_small b n sixteen = omega arith

half : (b n m : ℕ) → IsBase b → n < m * 2 → n / b < m
half b n m two h = omega arith
half b n m eight h = omega arith
half b n m ten h = omega arith
half b n m sixteen h = omega arith

read-step :
    (b : ℕ) (large : Bool) (n : ℕ) (written : List ℕ)
    → IsBase b
    → n / b * b ^ length (digit_char large (n % b) ∷ written)
        + read_number b (digit_char large (n % b) ∷ written)
      ≡ n * b ^ length written + read_number b written
unfolding read_number
read-step b large n written i =
    let p = b ^ length written in
    let v = read_number b written in
    let d = digit_value-digit_char large (n % b) (digit_small b n i) in
    let s = split b n i in
    let e = shift b (n / b) (n % b) p v in
    rw (d, pow.suc b (length written)) (sym e ∙ ap (λ t. t * p + v) s)

raise : (b n k : ℕ) → IsBase b → b ^ k ≤ n / b → b ^ suc k ≤ n
raise b n k two h = rw (pow.suc 2 k) (omega (arith, h))
raise b n k eight h = rw (pow.suc 8 k) (omega (arith, h))
raise b n k ten h = rw (pow.suc 10 k) (omega (arith, h))
raise b n k sixteen h = rw (pow.suc 16 k) (omega (arith, h))

ended : (b n : ℕ) → IsBase b → n < 2 → n / b ≡ 0
ended b n two h = omega arith
ended b n eight h = omega arith
ended b n ten h = omega arith
ended b n sixteen h = omega arith

positive : (b n : ℕ) → IsBase b → n / b ≢ 0 → n ≢ 0
positive b n two h e = h (omega (arith, e))
positive b n eight h e = h (omega (arith, e))
positive b n ten h e = h (omega (arith, e))
positive b n sixteen h e = h (omega (arith, e))

below : (b n : ℕ) → IsBase b → n % b < b
below b n two = omega arith
below b n eight = omega arith
below b n ten = omega arith
below b n sixteen = omega arith

-- All characters are digits of the base.
pub data AllDigits (v : Conversion) : List ℕ → Type 0 where
  none_left : AllDigits v []
  digit :
      (d : ℕ) (cs : List ℕ) → d < v.base → AllDigits v cs → AllDigits v (digit_char v.large d ∷ cs)

-- What the loop over the digits has written, `k` digits and one in front of `written`.
pub record Written (v : Conversion) (number width : ℕ) (written : List ℕ) (k left : ℕ) (cs : List ℕ)
    : Type 0 where
  pub value : read_number v.base cs ≡ number * v.base ^ length written + read_number v.base written
  pub length_eq : length cs ≡ length written + suc k
  pub left_eq : left ≡ width - suc k
  pub shortest : (number ≡ 0) × (k ≡ 0) ⊎ (v.base ^ k ≤ number)
  pub digits : AllDigits v cs

put-last :
    (v : Conversion) (number width : ℕ) (written : List ℕ)
    → IsBase v.base
    → number / v.base ≡ 0
    → AllDigits v written
    → Written v number width written 0 (width - 1) (digit_char v.large (number % v.base) ∷ written)
put-last v number width written i z a =
    let e = read-step v.base v.large number written i in
    let nought : number / v.base * v.base ^ suc (length written) ≡ 0 = rw z (omega arith) in
    record {
      value = omega (arith, e, nought);
      length_eq = omega arith;
      left_eq = refl;
      shortest = elim (Bool-cases (number == 0)) [
        | inl n ↦ inl (ground (arith, n), refl)
        | inr n ↦ inr (rw (pow.zero v.base) (ground (arith, n)))
      ];
      digits = digit (number % v.base) written (below v.base number i) a;
    }

put-more :
    (v : Conversion) (number width : ℕ) (written : List ℕ) (k left : ℕ) (cs : List ℕ)
    → IsBase v.base
    → number / v.base ≢ 0
    → Written v
        (number / v.base)
        (width - 1)
        (digit_char v.large (number % v.base) ∷ written)
        k
        left
        cs
    → Written v number width written (suc k) left cs
put-more v number width written k left cs i n w = record {
  value = w.value ∙ read-step v.base v.large number written i;
  length_eq = w.length_eq ∙ omega arith;
  left_eq = w.left_eq ∙ omega arith;
  shortest = elim w.shortest [ inl z ↦ absurd (n z.0) | inr h ↦ inr (raise v.base number k i h) ];
  digits = w.digits;
}

digits_step :
    (fuel : ℕ) (v : Conversion) (number width : ℕ) (written : List ℕ)
    → length written < 32
    → number / v.base ≢ 0
    → put_digits (suc fuel) v number width written
      ≡ put_digits fuel v
          (number / v.base)
          (width - 1)
          (digit_char v.large (number % v.base) ∷ written)
unfolding put_digits
digits_step fuel v number width written h n = ground (arith, h, n)

digits_end :
    (fuel : ℕ) (v : Conversion) (number width : ℕ) (written : List ℕ)
    → length written < 32
    → number / v.base ≡ 0
    → put_digits (suc fuel) v number width written
      ≡ some (width - 1, digit_char v.large (number % v.base) ∷ written)
unfolding put_digits
digits_end fuel v number width written h n = ground (arith, h, n)

-- The loop ends within `numtemp`.
pub put_digits-Written :
    (fuel : ℕ) (v : Conversion) (number width : ℕ) (written : List ℕ)
    → IsBase v.base
    → number < 2 ^ suc fuel
    → length written + suc fuel ≡ 32
    → AllDigits v written
    → (k left : ℕ) × (cs : List ℕ) × (put_digits (suc fuel) v number width written
        ≡ some (left, cs))
      × Written v number width written k left cs
      × (k ≤ fuel)
put_digits-Written zero v number width written i h l a =
    let z : number / v.base ≡ 0 = ended v.base number i (omega (arith, h)) in
    (
      0,
      _,
      _,
      digits_end 0 v number width written (omega (arith, l)) z,
      put-last v number width written i z a,
      omega arith,
    )
put_digits-Written (suc fuel) v number width written i h l a =
    elim (Bool-cases (number / v.base == 0)) [
      | inl e ↦
          let z : number / v.base ≡ 0 = ground (arith, e) in
          (
            0,
            _,
            _,
            digits_end (suc fuel) v number width written (omega (arith, l)) z,
            put-last v number width written i z a,
            omega arith,
          )
      | inr e ↦
          let n : number / v.base ≢ 0 = λ z. ground (arith, e, z) in
          let (k, left, cs, r, w, u) =
            put_digits-Written fuel v (number / v.base) (width - 1)
              (digit_char v.large (number % v.base) ∷ written) i
              (half v.base number (2 ^ suc fuel) i
                (let p = pow.suc 2 (suc fuel) in omega (arith, h, p)))
              (omega (arith, l)) (digit (number % v.base) written (below v.base number i) a) in
          (
            suc k,
            left,
            cs,
            digits_step (suc fuel) v number width written (omega (arith, l)) n ∙ r,
            put-more v number width written k left cs i n w,
            omega (arith, u),
          )
    ]
