-- ===== src/Format/Tests.antt =====
-- Numbers printed, and the theorems on them.
use mylysos.Base.{ℕ, ◌≡◌, refl, true, false, some, none, List, [], ◌∷◌, arith}
use mylysos.Format.{
  number_arg, string_arg, printed, fault, Conversion, format_number, vsprintf, ffmt, directive,
  number_directive, conversion_of, prefix_of, read_width, put_digits, put_prefixes, put_front,
  digit_char, is_negative, without_sign,
}
use mylysos.Format.Digits.{ten}
use mylysos.Format.Field.{Field, format_number-Field, format_number_wide}
use mylysos.Format.Rounds.{Ended, vsprintf-Ended}

abbrev decimal : Conversion
decimal = record { base = 10; sign = true; large = false }

-- "n=%04X" and "%5d|%s".
abbrev hex_format : List ℕ
hex_format = b'n' ∷ b'=' ∷ b'%' ∷ b'0' ∷ b'4' ∷ b'X' ∷ []

abbrev text_format : List ℕ
text_format = b'%' ∷ b'5' ∷ b'd' ∷ b'|' ∷ b'%' ∷ b's' ∷ []

hex :
    vsprintf hex_format (number_arg 171 ∷ [])
    ≡ printed (b'n' ∷ b'=' ∷ b'0' ∷ b'0' ∷ b'A' ∷ b'B' ∷ [])
unfolding vsprintf ffmt directive number_directive conversion_of prefix_of read_width format_number
    put_digits put_prefixes put_front digit_char is_negative without_sign
hex = refl

negative :
    vsprintf text_format (number_arg 4294967284 ∷ string_arg (b'x' ∷ []) ∷ [])
    ≡ printed (b'-' ∷ b' ' ∷ b' ' ∷ b' ' ∷ b'1' ∷ b'2' ∷ b'|' ∷ b'x' ∷ [])
unfolding vsprintf ffmt directive number_directive conversion_of prefix_of read_width format_number
    put_digits put_prefixes put_front digit_char is_negative without_sign
negative = refl

-- A per cent sign at the end of a format.
at_end : vsprintf (b'%' ∷ []) [] ≡ fault
unfolding vsprintf ffmt directive read_width prefix_of
at_end = refl

format_number-Field_example :
    (text : List ℕ) × (format_number decimal 5 b' ' 4294967284 ≡ some text)
    × Field decimal 5 b' ' 4294967284 text
format_number-Field_example =
    format_number-Field decimal 5 b' ' 4294967284 ten (omega arith) (omega arith)

format_number_wide_example : format_number decimal 33 b' ' 7 ≡ none
format_number_wide_example = format_number_wide decimal 33 b' ' 7 ten (omega arith) (omega arith)

vsprintf-Ended_example : Ended (vsprintf text_format (number_arg 7 ∷ []))
vsprintf-Ended_example = vsprintf-Ended text_format (number_arg 7 ∷ [])
