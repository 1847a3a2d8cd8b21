-- ===== src/Format/Field.antt =====
-- The text of a number: its sign, its prefixes and its digits.
use Prim.Native.Nat.pow
use mylysos.Base.{
  ℕ, zero, suc, ◌+◌, ◌-◌, ◌*◌, ◌^◌, ◌≤◌, ◌<◌, ◌≡◌, ◌⊎◌, inl, inr, refl, ap, ◌∙◌, Bool, true, false,
  List, [], ◌∷◌, ◌++◌, length, replicate, arith, ltb, if◌then◌else◌, none, some, Bool-cases,
}
use mylysos.Format.{
  Conversion, put_front, put_prefixes, put_digits, is_negative, without_sign, format_number,
}
use mylysos.Format.Digits.{IsBase, AllDigits, none_left, read_number, Written, put_digits-Written}

-- The absolute value of a number, read in two's complement by a conversion with a sign.
unfoldable pub magnitude : Conversion → ℕ → ℕ
magnitude v number = if is_negative v number then 2 ^ 32 - number else number

unfoldable pub sign_of : Conversion → ℕ → List ℕ
sign_of v number = if is_negative v number then b'-' ∷ [] else []

-- The text is the sign, the prefixes that fill up the width, and the digits of the absolute value,
-- of which there is no leading 0.
pub record Field (v : Conversion) (width prefix number : ℕ) (text : List ℕ) : Type 0 where
  pub digits : List ℕ
  pub text_eq : text ≡ sign_of v number ++ (replicate (width - length digits) prefix ++ digits)
  pub value : read_number v.base digits ≡ magnitude v number
  pub all_digits : AllDigits v digits
  pub shortest :
      (magnitude v number ≡ 0) × (length digits ≡ 1)
      ⊎ (v.base ^ (length digits - 1) ≤ magnitude v number)

replicate-shift :
    (n prefix : ℕ) (cs : List ℕ)
    → replicate n prefix ++ (prefix ∷ cs) ≡ prefix ∷ (replicate n prefix ++ cs)
replicate-shift zero prefix cs = refl
replicate-shift (suc n) prefix cs = ap (λ t. prefix ∷ t) (replicate-shift n prefix cs)

put_prefixes-fits :
    (n prefix : ℕ) (cs : List ℕ)
    → length cs + n ≤ 32
    → put_prefixes n prefix cs ≡ some (replicate n prefix ++ cs)
unfolding put_prefixes put_front
put_prefixes-fits zero prefix cs h = refl
put_prefixes-fits (suc n) prefix cs h =
    let room : ltb (length cs) 32 ≡ true = ground (arith, h) in
    rw (put_prefixes, room)
      (put_prefixes-fits n prefix (prefix ∷ cs) (omega (arith, h))
        ∙ ap some (replicate-shift n prefix cs))

put_prefixes-none :
    (n prefix : ℕ) (cs : List ℕ)
    → 32 < length cs + n
    → length cs ≤ 32
    → put_prefixes n prefix cs ≡ none
unfolding put_prefixes put_front
put_prefixes-none zero prefix cs h l = absurd (omega (arith, h, l))
put_prefixes-none (suc n) prefix cs h l = elim (Bool-cases (ltb (length cs) 32)) [
  | inl room ↦
      rw (put_prefixes, room)
        (put_prefixes-none n prefix (prefix ∷ cs) (omega (arith, h)) (ground (arith, room)))
  | inr full ↦ rw (put_prefixes, full) refl
]

negated :
    (v : Conversion) (number : ℕ) → number < 2 ^ 32 → without_sign v number ≡ magnitude v number
unfolding magnitude is_negative without_sign
negated v number h = elim (Bool-cases v.sign) [ inl s ↦ rw s (ground arith) | inr s ↦ rw s refl ]

prepend_sign :
    (b : Bool) (text : List ℕ)
    → (if b then b'-' ∷ text else text) ≡ (if b then b'-' ∷ [] else []) ++ text
prepend_sign true text = refl
prepend_sign false text = refl

-- What format_number does once the digits are there.
format_number-some :
    (v : Conversion) (width prefix number left : ℕ) (cs text : List ℕ)
    → number < 2 ^ 32
    → put_digits 32 v (magnitude v number) width [] ≡ some (left, cs)
    → put_prefixes left prefix cs ≡ some text
    → format_number v width prefix number ≡ some (sign_of v number ++ text)
unfolding format_number sign_of
format_number-some v width prefix number left cs text h e p =
    rw (format_number, negated v number h, e, p)
      (ap some (prepend_sign (is_negative v number) text))

format_number-none :
    (v : Conversion) (width prefix number left : ℕ) (cs : List ℕ)
    → number < 2 ^ 32
    → put_digits 32 v (magnitude v number) width [] ≡ some (left, cs)
    → put_prefixes left prefix cs ≡ none
    → format_number v width prefix number ≡ none
unfolding format_number
format_number-none v width prefix number left cs h e p =
    rw (format_number, negated v number h, e, p) refl

magnitude-small : (v : Conversion) (number : ℕ) → number < 2 ^ 32 → magnitude v number < 2 ^ 32
unfolding magnitude is_negative
magnitude-small v number h = ground (arith, h)

digits_of :
    (v : Conversion) (width number : ℕ)
    → IsBase v.base
    → number < 2 ^ 32
    → (k left : ℕ) × (cs : List ℕ) × (put_digits 32 v (magnitude v number) width []
        ≡ some (left, cs))
      × Written v (magnitude v number) width [] k left cs
      × (k ≤ 31)
digits_of v width number i h =
    put_digits-Written 31 v (magnitude v number) width [] i (magnitude-small v number h) refl
      none_left

first_value : (v : Conversion) (n : ℕ) → n * v.base ^ 0 + 0 ≡ n
first_value v n = rw (pow.zero v.base) (omega arith)

Written-Field :
    (v : Conversion) (width prefix number k left : ℕ) (cs : List ℕ)
    → Written v (magnitude v number) width [] k left cs
    → Field v width prefix number (sign_of v number ++ (replicate left prefix ++ cs))
unfolding read_number
Written-Field v width prefix number k left cs w = record {
  digits = cs;
  text_eq =
      ap (λ n. sign_of v number ++ (replicate n prefix ++ cs))
        (w.left_eq ∙ omega (arith, w.length_eq));
  value = w.value ∙ first_value v (magnitude v number);
  all_digits = w.digits;
  shortest = elim w.shortest [
    | inl z ↦ inl (z.0, omega (arith, w.length_eq, z.1))
    | inr b ↦ inr (let q : length cs - 1 ≡ k = omega (arith, w.length_eq) in rw q b)
  ];
}

-- A number in a width up to 32 is printed by its sign, the prefixes that fill up the width, and the
-- digits of its absolute value, of which the first one is not 0 unless it is the only one.
pub format_number-Field :
    (v : Conversion) (width prefix number : ℕ)
    → IsBase v.base
    → number < 2 ^ 32
    → width ≤ 32
    → (text : List ℕ) × (format_number v width prefix number ≡ some text)
      × Field v width prefix number text
format_number-Field v width prefix number i h small =
    let (k, left, cs, e, w, u) = digits_of v width number i h in
    let fits : length cs + left ≤ 32 = omega (arith, w.length_eq, w.left_eq, u) in
    (
      _,
      format_number-some v width prefix number left cs _ h e
          (put_prefixes-fits left prefix cs fits),
      Written-Field v width prefix number k left cs w,
    )

-- A width over 32 leads out of `numtemp`, whatever the number is.
pub format_number_wide :
    (v : Conversion) (width prefix number : ℕ)
    → IsBase v.base
    → number < 2 ^ 32
    → 32 < width
    → format_number v width prefix number ≡ none
format_number_wide v width prefix number i h wide =
    let (k, left, cs, e, w, u) = digits_of v width number i h in
    let size : length cs ≡ suc k = w.length_eq ∙ omega arith in
    format_number-none v width prefix number left cs h e (
      put_prefixes-none left prefix cs (omega (arith, size, w.left_eq, u)) (omega (arith, size, u)))
