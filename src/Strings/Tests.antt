-- ===== src/Strings/Tests.antt =====
-- The string "ab" at 100, and the theorems on it.
use mylysos.Base.{ℕ, ◌≡◌, inr, refl, some, List, [], ◌∷◌, arith, get_or, ◌-◌}
use mylysos.Strings.{strcpy}
use mylysos.Strings.Walks.{IsString, terminator, char, Copied, strcpy-Copied}

abbrev text : List ℕ
text = b'a' ∷ b'b' ∷ []

abbrev memory : ℕ → ℕ
memory a = get_or text (a - 100) 0

text-IsString : IsString memory 100 text
text-IsString =
    char 100 b'a' _ refl (λ e. omega (arith, e)) (omega arith)
      (char 101 b'b' _ refl (λ e. omega (arith, e)) (omega arith) (terminator 102 refl))

strcpy-Copied_example :
    (after : ℕ → ℕ) × (strcpy 3 memory 200 100 ≡ some after) × Copied memory 200 100 text after
strcpy-Copied_example = strcpy-Copied memory 200 100 text text-IsString (inr (omega arith))
