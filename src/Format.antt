-- ===== src/Format.antt =====
-- The formatted output of mylysos/vsprintf.c. A text is the list of its characters without the
-- terminator; `buf` is taken to be large enough.
mod Digits
mod Field
mod Rounds
mod Tests
use mylysos.Base.{
  ℕ, zero, suc, ◌+◌, ◌-◌, ◌*◌, ◌/◌, ◌%◌, ◌^◌, Bool, true, false, not, ◌&&◌, ◌||◌, Option, none,
  some, List, [], ◌∷◌, ◌++◌, length, ltb, leb, ◌==◌, if◌then◌else◌, u32, sub32,
}

-- The values that va_arg takes.
pub data Arg : Type 0 where
  char_arg : ℕ → Arg
  string_arg : List ℕ → Arg
  number_arg : ℕ → Arg

-- What a format gives: a text, or a fault, where it reads behind the format or the arguments, or
-- writes in front of `numtemp`.
pub data Printed : Type 0 where
  printed : List ℕ → Printed
  fault : Printed
  hung : Printed

-- A conversion of numbers: the base and the flags.
pub record Conversion : Type 0 where
  pub base : ℕ
  pub sign : Bool
  pub large : Bool

-- The bytes of `numtemp` in front of the terminator.
abbrev pub numtemp_size : ℕ
numtemp_size = 32

-- The character of a digit.
unfoldable pub digit_char : (large : Bool) → ℕ → ℕ
digit_char large temp =
    if ltb 9 temp then temp + (if large then b'A' else b'a') - 10 else temp + b'0'

-- `*numptr-- = c`, where the list is what stands from `numptr` on; none in front of the array.
unfoldable pub put_front : ℕ → List ℕ → Option (List ℕ)
put_front c written = if ltb (length written) numtemp_size then some (c ∷ written) else none

-- The loop over the digits of a number, which gives what is left of `width` too. A round for each
-- byte of `numtemp` is enough.
unfoldable pub put_digits :
    (fuel : ℕ) → Conversion → (number width : ℕ) → List ℕ → Option (ℕ × List ℕ)
put_digits zero v number width written = none
put_digits (suc fuel) v number width written =
    let next = digit_char v.large (number % v.base) ∷ written in
    let rest = put_digits fuel v (number / v.base) (width - 1) next in
    if not (ltb (length written) numtemp_size)
    then none
    else if number / v.base == 0
    then some (width - 1, next)
    else rest

-- The loop over the prefixes.
unfoldable pub put_prefixes : (width prefix : ℕ) → List ℕ → Option (List ℕ)
put_prefixes zero prefix written = some written
put_prefixes (suc width) prefix written = elim (put_front prefix written) [
  | none ↦ none
  | some next ↦ put_prefixes width prefix next
]

-- The number is printed as a negative one.
unfoldable pub is_negative : Conversion → ℕ → Bool
is_negative v number = v.sign && leb (2 ^ 31) number

-- The number whose digits are printed.
unfoldable pub without_sign : Conversion → ℕ → ℕ
without_sign v number = if is_negative v number then sub32 0 number else number

-- What a conversion of a number writes.
unfoldable pub format_number : Conversion → (width prefix number : ℕ) → Option (List ℕ)
format_number v width prefix number =
    let negative = is_negative v number in
    elim (put_digits numtemp_size v (without_sign v number) width []) [
      | none ↦ none
      | some (width, written) ↦ elim (put_prefixes width prefix written) [
        | none ↦ none
        | some text ↦ some (if negative then b'-' ∷ text else text)
      ]
    ]

-- The digits of the width and what is behind them.
unfoldable pub read_width : (width : ℕ) → List ℕ → ℕ × List ℕ
read_width width [] = (width, [])
read_width width (c ∷ fmt) =
    let rest = read_width (u32 (width * 10 + (c - b'0'))) fmt in
    if leb b'0' c && leb c b'9' then rest else (width, c ∷ fmt)

-- The conversion of numbers that a character stands for.
unfoldable pub conversion_of : ℕ → Option Conversion
conversion_of c =
    if c == b'b'
    then some record { base = 2; sign = false; large = false }
    else if c == b'd' || c == b'i'
    then some record { base = 10; sign = true; large = false }
    else if c == b'u'
    then some record { base = 10; sign = false; large = false }
    else if c == b'o'
    then some record { base = 8; sign = false; large = false }
    else if c == b'X'
    then some record { base = 16; sign = false; large = true }
    else if c == b'x'
    then some record { base = 16; sign = false; large = false }
    else none

abbrev pub prepend : List ℕ → Printed → Printed
prepend text (printed out) = printed (text ++ out)
prepend text fault = fault
prepend text hung = hung

-- The text of a conversion of a number, if it is one, the format behind it and the arguments behind
-- it.
unfoldable pub number_directive :
    Option Conversion
    → (width prefix : ℕ) → (fmt : List ℕ) → List Arg
    → Option (List ℕ × List ℕ × List Arg)
number_directive none width prefix fmt args = some ([], fmt, args)
number_directive (some v) width prefix fmt (number_arg n ∷ args) =
    elim (format_number v width prefix n) [ none ↦ none | some text ↦ some (text, fmt, args) ]
number_directive (some v) width prefix fmt _ = none

-- The text of the directive whose width and prefix have been read, the format behind it and the
-- arguments behind it.
unfoldable pub directive :
    (width prefix : ℕ) → (fmt : List ℕ) → List Arg → Option (List ℕ × List ℕ × List Arg)
directive width prefix [] args = none
directive width prefix (c ∷ fmt) args =
    if c == b'c'
    then elim args [ char_arg x ∷ args ↦ some (x ∷ [], fmt, args) | _ ↦ none ]
    else if c == b's'
    then elim args [ string_arg xs ∷ args ↦ some (xs, fmt, args) | _ ↦ none ]
    else if c == b'%'
    then some (b'%' ∷ [], fmt, args)
    else number_directive (conversion_of c) width prefix fmt args

-- `prefix`, by the first character behind the per cent sign.
unfoldable pub prefix_of : List ℕ → ℕ
prefix_of [] = b' '
prefix_of (c ∷ fmt) = if c == b'0' then b'0' else b' '

-- The loop of ffmt. A round for each character of the format is enough. An argument of another
-- kind than the conversion asks for is a fault.
unfoldable pub ffmt : (fuel : ℕ) → (fmt : List ℕ) → List Arg → Printed
ffmt zero [] args = printed []
ffmt (suc fuel) [] args = printed []
ffmt zero (c ∷ fmt) args = hung
ffmt (suc fuel) (c ∷ fmt) args =
    let (width, behind) = read_width 0 fmt in
    if not (c == b'%')
    then prepend (c ∷ []) (ffmt fuel fmt args)
    else elim (directive width (prefix_of fmt) behind args) [
      | none ↦ fault
      | some (text, fmt, args) ↦ prepend text (ffmt fuel fmt args)
    ]

-- vsprintf.
unfoldable pub vsprintf : (fmt : List ℕ) → List Arg → Printed
vsprintf fmt args = ffmt (length fmt) fmt args
