-- ===== src/Format/Rounds.antt =====
-- The loop over the format.
use mylysos.Base.{
  ℕ, zero, suc, ◌+◌, ◌-◌, ◌*◌, ◌≤◌, ◌<◌, ◌≡◌, ◌≢◌, inl, inr, refl, ap, ◌∙◌, Bool, true, false, ◌&&◌,
  List, [], ◌∷◌, ◌++◌, length, arith, if◌then◌else◌, Option, none, some, leb, ◌==◌, u32, Bool-cases,
  length-append,
}
use mylysos.Format.{
  Arg, char_arg, string_arg, number_arg, Conversion, number_directive, Printed, printed, fault,
  hung, prepend, read_width, conversion_of, format_number, directive, prefix_of, ffmt, vsprintf,
}

-- The run is over, with a text or a fault.
pub data Ended : Printed → Type 0 where
  with_text : (text : List ℕ) → Ended (printed text)
  with_fault : Ended fault

Ended-prepend : (text : List ℕ) (p : Printed) → Ended p → Ended (prepend text p)
Ended-prepend text _ (with_text out) = with_text (text ++ out)
Ended-prepend text _ with_fault = with_fault

read_width-length : (w : ℕ) (fmt : List ℕ) → length (read_width w fmt).1 ≤ length fmt
unfolding read_width
read_width-length w [] = omega arith
read_width-length w (c ∷ fmt) =
    let rest = read_width-length (u32 (w * 10 + (c - b'0'))) fmt in
    elim (Bool-cases (leb b'0' c && leb c b'9')) [
      | inl d ↦ rw (read_width, d) (omega (arith, rest))
      | inr d ↦ rw (read_width, d) (omega arith)
    ]

-- A directive leaves a shorter format.
pub data Shorter (n : ℕ) : Option (List ℕ × List ℕ × List Arg) → Type 0 where
  nothing : Shorter n none
  shorter :
      (text fmt : List ℕ) (args : List Arg) → length fmt < n → Shorter n (some (text, fmt, args))

if-Shorter :
    (n : ℕ) (b : Bool) (x y : Option (List ℕ × List ℕ × List Arg))
    → Shorter n x
    → Shorter n y
    → Shorter n (if b then x else y)
if-Shorter n true x y p q = p
if-Shorter n false x y p q = q

format-Shorter :
    (n : ℕ) (fmt : List ℕ) (args : List Arg) (o : Option (List ℕ))
    → length fmt < n
    → Shorter n (elim o [ none ↦ none | some text ↦ some (text, fmt, args) ])
format-Shorter n fmt args none h = nothing
format-Shorter n fmt args (some text) h = shorter text fmt args h

number_directive-Shorter :
    (o : Option Conversion) (w p : ℕ) (fmt : List ℕ) (args : List Arg) (n : ℕ)
    → length fmt < n
    → Shorter n (number_directive o w p fmt args)
unfolding number_directive
number_directive-Shorter none w p fmt args n h = shorter [] fmt args h
number_directive-Shorter (some v) w p fmt [] n h = nothing
number_directive-Shorter (some v) w p fmt (char_arg c ∷ args) n h = nothing
number_directive-Shorter (some v) w p fmt (string_arg cs ∷ args) n h = nothing
number_directive-Shorter (some v) w p fmt (number_arg x ∷ args) n h =
    format-Shorter n fmt args (format_number v w p x) h

char-Shorter :
    (fmt : List ℕ) (args : List Arg) (n : ℕ)
    → length fmt < n
    → Shorter n (elim args [ char_arg x ∷ rest ↦ some (x ∷ [], fmt, rest) | _ ↦ none ])
char-Shorter fmt [] n h = nothing
char-Shorter fmt (char_arg c ∷ args) n h = shorter (c ∷ []) fmt args h
char-Shorter fmt (string_arg cs ∷ args) n h = nothing
char-Shorter fmt (number_arg x ∷ args) n h = nothing

string-Shorter :
    (fmt : List ℕ) (args : List Arg) (n : ℕ)
    → length fmt < n
    → Shorter n (elim args [ string_arg xs ∷ rest ↦ some (xs, fmt, rest) | _ ↦ none ])
string-Shorter fmt [] n h = nothing
string-Shorter fmt (char_arg c ∷ args) n h = nothing
string-Shorter fmt (string_arg cs ∷ args) n h = shorter cs fmt args h
string-Shorter fmt (number_arg x ∷ args) n h = nothing

directive-Shorter :
    (w p : ℕ) (fmt : List ℕ) (args : List Arg) (n : ℕ)
    → length fmt ≤ n
    → Shorter n (directive w p fmt args)
unfolding directive
directive-Shorter w p [] args n h = nothing
directive-Shorter w p (c ∷ fmt) args n h =
    let small : length fmt < n = omega (arith, h) in
    if-Shorter n _ _ _ (char-Shorter fmt args n small) (
      if-Shorter n _ _ _ (string-Shorter fmt args n small) (
        if-Shorter n _ _ _ (shorter (b'%' ∷ []) fmt args small)
          (number_directive-Shorter (conversion_of c) w p fmt args n small)))

Ended-directive :
    (fuel n : ℕ) (o : Option (List ℕ × List ℕ × List Arg))
    → Shorter n o
    → ((fmt : List ℕ) (args : List Arg) → length fmt < n → Ended (ffmt fuel fmt args))
    → Ended (elim o [ none ↦ fault | some (text, fmt, args) ↦ prepend text (ffmt fuel fmt args) ])
Ended-directive fuel n _ nothing f = with_fault
Ended-directive fuel n _ (shorter text fmt args h) f = Ended-prepend text _ (f fmt args h)

if-Ended : (b : Bool) (x y : Printed) → Ended x → Ended y → Ended (if b then x else y)
if-Ended true x y p q = p
if-Ended false x y p q = q

ffmt-Ended :
    (fuel : ℕ) (fmt : List ℕ) (args : List Arg) → length fmt ≤ fuel → Ended (ffmt fuel fmt args)
unfolding ffmt
ffmt-Ended zero [] args h = with_text []
ffmt-Ended (suc fuel) [] args h = with_text []
ffmt-Ended zero (c ∷ fmt) args h = absurd (omega (arith, h))
ffmt-Ended (suc fuel) (c ∷ fmt) args h =
    if-Ended _ _ _ (Ended-prepend (c ∷ []) _ (ffmt-Ended fuel fmt args (omega (arith, h)))) (
      Ended-directive fuel (length fmt) _
        (directive-Shorter (read_width 0 fmt).0 (prefix_of fmt) (read_width 0 fmt).1 args
          (length fmt) (read_width-length 0 fmt))
        (λ rest args' small. ffmt-Ended fuel rest args' (omega (arith, small, h))))

-- vsprintf ends on every format and all arguments, with a text or a fault.
pub vsprintf-Ended : (fmt : List ℕ) (args : List Arg) → Ended (vsprintf fmt args)
unfolding vsprintf
vsprintf-Ended fmt args = ffmt-Ended (length fmt) fmt args (omega arith)

-- The text has no per cent sign.
pub data NoDirective : List ℕ → Type 0 where
  none_left : NoDirective []
  plain : (c : ℕ) (cs : List ℕ) → c ≢ b'%' → NoDirective cs → NoDirective (c ∷ cs)

prepend-prepend :
    (c : ℕ) (text : List ℕ) (p : Printed) → prepend (c ∷ []) (prepend text p) ≡ prepend (c ∷ text) p
prepend-prepend c text (printed out) = refl
prepend-prepend c text fault = refl
prepend-prepend c text hung = refl

prepend-nothing : (p : Printed) → p ≡ prepend [] p
prepend-nothing (printed out) = refl
prepend-nothing fault = refl
prepend-nothing hung = refl

ffmt-text :
    (text fmt : List ℕ) (args : List Arg) (fuel n : ℕ)
    → NoDirective text
    → fuel ≡ length text + n
    → ffmt fuel (text ++ fmt) args ≡ prepend text (ffmt n fmt args)
unfolding ffmt
ffmt-text _ fmt args fuel n none_left e =
    let same : fuel ≡ n = e ∙ omega arith in ap (λ k. ffmt k fmt args) same ∙ prepend-nothing _
ffmt-text _ fmt args zero n (plain c cs h p) e = absurd (omega (arith, e))
ffmt-text _ fmt args (suc fuel) n (plain c cs h p) e =
    let test : (c == b'%') ≡ false = ground (arith, h) in
    rw (ffmt, test)
      (ap (prepend (c ∷ [])) (ffmt-text cs fmt args fuel n p (omega (arith, e)))
        ∙ prepend-prepend c cs (ffmt n fmt args))

-- A text without a per cent sign is printed as it is, in front of what the rest of the format gives.
pub vsprintf-append :
    (text fmt : List ℕ) (args : List Arg)
    → NoDirective text
    → vsprintf (text ++ fmt) args ≡ prepend text (vsprintf fmt args)
unfolding vsprintf
vsprintf-append text fmt args p =
    ffmt-text text fmt args (length (text ++ fmt)) (length fmt) p (length-append text fmt)
