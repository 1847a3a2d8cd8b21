-- ===== src/Shell/Parsing/Tests.antt =====
-- The line " dir a", and the parser on it.
use mylysos.Base.{
  ℕ, ◌+◌, ◌-◌, ◌<◌, ◌≤◌, ◌^◌, ◌≡◌, ◌≢◌, inr, some, List, [], ◌∷◌, ◌++◌, arith, get_or, ltb,
  if◌then◌else◌,
}
use mylysos.Strings.Walks.{IsString, terminator, char}
use mylysos.Shell.{
  InternalCommand, cmd_help, cmd_cls, cmd_ver, cmd_toggle, cmd_dir, cmd_type, cmd_ps, cmd_free,
  Call, parser,
}
use mylysos.Shell.Words.{Word, no_letter, letter, first}
use mylysos.Shell.Parsing.{text_of, Names, Parsed, parser-Parsed}

abbrev line : List ℕ
line = b' ' ∷ b'd' ∷ b'i' ∷ b'r' ∷ b' ' ∷ b'a' ∷ []

-- The names stand ten bytes apart, from 1000 on.
abbrev name : InternalCommand → ℕ
name cmd_help = 1000
name cmd_cls = 1010
name cmd_ver = 1020
name cmd_toggle = 1030
name cmd_dir = 1040
name cmd_type = 1050
name cmd_ps = 1060
name cmd_free = 1070

abbrev names_text : List ℕ
names_text =
    text_of cmd_help
    ++ 0 ∷ 0 ∷ 0 ∷ 0 ∷ 0 ∷ 0 ∷ text_of cmd_cls
    ++ 0 ∷ 0 ∷ 0 ∷ 0 ∷ 0 ∷ 0 ∷ 0 ∷ text_of cmd_ver
    ++ 0 ∷ 0 ∷ 0 ∷ 0 ∷ 0 ∷ 0 ∷ 0 ∷ text_of cmd_toggle
    ++ 0 ∷ 0 ∷ 0 ∷ 0 ∷ text_of cmd_dir
    ++ 0 ∷ 0 ∷ 0 ∷ 0 ∷ 0 ∷ 0 ∷ 0 ∷ text_of cmd_type
    ++ 0 ∷ 0 ∷ 0 ∷ 0 ∷ 0 ∷ 0 ∷ text_of cmd_ps
    ++ 0 ∷ 0 ∷ 0 ∷ 0 ∷ 0 ∷ 0 ∷ 0 ∷ 0 ∷ text_of cmd_free

abbrev memory : ℕ → ℕ
memory a = if ltb a 1000 then get_or line (a - 100) 0 else get_or names_text (a - 1000) 0

-- A literal string at a place, by its characters.
abbrev Spelled : (ℕ → ℕ) → ℕ → List ℕ → Type 0
Spelled m p [] = m p ≡ 0
Spelled m p (c ∷ cs) = (m p ≡ c) × (c ≢ 0) × (c < 2 ^ 8) × Spelled m (p + 1) cs

IsString-spelled : (m : ℕ → ℕ) (p : ℕ) (cs : List ℕ) → Spelled m p cs → IsString m p cs
IsString-spelled m p [] e = terminator p e
IsString-spelled m p (c ∷ cs) (e, n, b, rest) =
    char p c cs e n b (IsString-spelled m (p + 1) cs rest)

name-IsString : (c : InternalCommand) → IsString memory (name c) (text_of c)
name-IsString cmd_help = IsString-spelled memory 1000 (text_of cmd_help) (ground arith)
name-IsString cmd_cls = IsString-spelled memory 1010 (text_of cmd_cls) (ground arith)
name-IsString cmd_ver = IsString-spelled memory 1020 (text_of cmd_ver) (ground arith)
name-IsString cmd_toggle = IsString-spelled memory 1030 (text_of cmd_toggle) (ground arith)
name-IsString cmd_dir = IsString-spelled memory 1040 (text_of cmd_dir) (ground arith)
name-IsString cmd_type = IsString-spelled memory 1050 (text_of cmd_type) (ground arith)
name-IsString cmd_ps = IsString-spelled memory 1060 (text_of cmd_ps) (ground arith)
name-IsString cmd_free = IsString-spelled memory 1070 (text_of cmd_free) (ground arith)

name-behind : (c : InternalCommand) → 228 ≤ name c
name-behind cmd_help = omega arith
name-behind cmd_cls = omega arith
name-behind cmd_ver = omega arith
name-behind cmd_toggle = omega arith
name-behind cmd_dir = omega arith
name-behind cmd_type = omega arith
name-behind cmd_ps = omega arith
name-behind cmd_free = omega arith

memory-Names : Names memory name 100 228
memory-Names = record { text = name-IsString; apart = λ c. inr (name-behind c) }

dir-Word : Word (b'd' ∷ b'i' ∷ b'r' ∷ [])
dir-Word =
    letter b'd' _ (λ e. omega (arith, e))
      (letter b'i' _ (λ e. omega (arith, e)) (letter b'r' _ (λ e. omega (arith, e)) no_letter))

parser-Parsed_example :
    (m' : ℕ → ℕ) × (call : Call) × (parser 128 name 100 memory ≡ some (m', call))
    × Parsed (100 + 1) (b'd' ∷ b'i' ∷ b'r' ∷ []) (some (0, b'a' ∷ [])) m' call
unfolding first
parser-Parsed_example =
    parser-Parsed 128 name memory 100 228 1 b'd' (b'i' ∷ b'r' ∷ []) (some (0, b'a' ∷ []))
      (IsString-spelled memory 100 line (ground arith)) dir-Word (λ e. omega (arith, e))
      memory-Names (omega arith) (omega arith) (omega arith) (omega arith)
