-- ===== src/Shell/Parsing.antt =====
-- What the parser makes of a line.
mod Tests
use mathlib.Core.List.{map}
use mathlib.Core.Path.{subst}
use mylysos.Base.{
  ℕ, zero, suc, ◌+◌, ◌≤◌, ◌<◌, ◌≡◌, ◌≢◌, ◌⊎◌, inl, inr, refl, sym, ap, ◌∙◌, true, false, Option,
  none, some, List, [], ◌∷◌, ◌++◌, length, length-map, replicate, arith, not, ◌&&◌, ◌==◌,
  if◌then◌else◌,
}
use mylysos.Strings.{strcmp, strupr, to_upper}
use mylysos.Strings.Walks.{
  IsString, char, IsString-agree, Compared, same, different, strcmp-Compared_longer,
}
use mylysos.Strings.Changes.{Raised, strupr-Raised, strupr-Raised_longer}
use mylysos.Shell.{
  InternalCommand, cmd_help, cmd_cls, cmd_ver, cmd_toggle, cmd_dir, cmd_type, cmd_ps, cmd_free,
  internal_cmds, Call, internal, excute, Split, split_line, find_command, parser,
}
use mylysos.Shell.Words.{
  Word, first, IsString-first, tail_of, ParametersAt, no_parameters, at, Splits, Trimmed, spaces_of,
  split_line-Splits,
}

-- The names of the commands.
abbrev pub text_of : InternalCommand → List ℕ
text_of cmd_help = b'H' ∷ b'E' ∷ b'L' ∷ b'P' ∷ []
text_of cmd_cls = b'C' ∷ b'L' ∷ b'S' ∷ []
text_of cmd_ver = b'V' ∷ b'E' ∷ b'R' ∷ []
text_of cmd_toggle = b'T' ∷ b'O' ∷ b'G' ∷ b'G' ∷ b'L' ∷ b'E' ∷ []
text_of cmd_dir = b'D' ∷ b'I' ∷ b'R' ∷ []
text_of cmd_type = b'T' ∷ b'Y' ∷ b'P' ∷ b'E' ∷ []
text_of cmd_ps = b'P' ∷ b'S' ∷ []
text_of cmd_free = b'F' ∷ b'R' ∷ b'E' ∷ b'E' ∷ []

-- The names stand in memory, apart from the bytes from `p` up to `q`.
pub record Names (m : ℕ → ℕ) (name : InternalCommand → ℕ) (p q : ℕ) : Type 0 where
  pub text : (c : InternalCommand) → IsString m (name c) (text_of c)
  pub apart : (c : InternalCommand) → (name c + length (text_of c) < p) ⊎ (q ≤ name c)

Names-agree :
    (m n : ℕ → ℕ) (name : InternalCommand → ℕ) (p q : ℕ)
    → Names m name p q
    → ((a : ℕ) → (a < p) ⊎ (q ≤ a) → n a ≡ m a)
    → Names n name p q
Names-agree m n name p q v h = record {
  text = λ c.
      IsString-agree m n (name c) (text_of c) (v.text c)
        (λ a le ge. h a (ground (arith, le, ge, v.apart c)));
  apart = v.apart;
}

-- The first command of the list with the name, if there is one.
pub data Found (w : List ℕ) : List InternalCommand → Option InternalCommand → Type 0 where
  unknown : Found w [] none
  here :
      (c : InternalCommand) (cs : List InternalCommand) → w ≡ text_of c → Found w (c ∷ cs) (some c)
  later :
      {o : Option InternalCommand} (c : InternalCommand) (cs : List InternalCommand)
      → w ≢ text_of c
      → Found w cs o
      → Found w (c ∷ cs) o

find_command-Found :
    (fuel : ℕ) (name : InternalCommand → ℕ) (m : ℕ → ℕ) (cmd : ℕ) (w : List ℕ)
    → IsString m cmd w
    → ((c : InternalCommand) → IsString m (name c) (text_of c))
    → length w < fuel
    → (cs : List InternalCommand)
    → (o : Option InternalCommand) × (find_command fuel name m cmd cs ≡ some o) × Found w cs o
unfolding find_command
find_command-Found fuel name m cmd w v names le [] = (none, refl, unknown)
find_command-Found fuel name m cmd w v names le (c ∷ cs) =
    go (find_command-Found fuel name m cmd w v names le cs) _ refl
      (strcmp-Compared_longer fuel m cmd (name c) w (text_of c) le v (names c))
  where
    go :
        (o : Option InternalCommand) × (find_command fuel name m cmd cs ≡ some o) × Found w cs o
        → (r : Option ℕ) → strcmp fuel m cmd (name c) ≡ r
        → Compared w (text_of c) r
        → (o : Option InternalCommand) × (find_command fuel name m cmd (c ∷ cs) ≡ some o)
          × Found w (c ∷ cs) o
    go more _ run (same e) = (some c, rw (find_command, run) refl, here c cs e)
    go (o, rest, found) _ run (different r n d) =
        let test : (r == 0) ≡ false = ground (arith, n) in
        (o, rw (find_command, run, test) rest, later c cs d found)

-- The call for a word, with its parameters.
abbrev pub call_of : Option InternalCommand → (cmd parameters : ℕ) → Call
call_of none cmd parameters = excute cmd parameters
call_of (some c) cmd parameters = internal c parameters

-- What the parser leaves: the word in capitals and the parameters as they were, and the call.
pub record Parsed (cmd : ℕ) (w : List ℕ) (rest : Option (ℕ × List ℕ)) (m : ℕ → ℕ) (call : Call)
    : Type 0 where
  pub command : Option InternalCommand
  pub parameters : ℕ
  pub found : Found (map to_upper w) internal_cmds command
  pub call_eq : call ≡ call_of command cmd parameters
  pub word : IsString m cmd (map to_upper w)
  pub parameters_at : ParametersAt m rest parameters

ParametersAt-agree :
    (m n : ℕ → ℕ) (rest : Option (ℕ × List ℕ)) (q : ℕ)
    → ParametersAt m rest q
    → ((a : ℕ) → q ≢ 0 → q ≤ a → n a ≡ m a)
    → ParametersAt n rest q
ParametersAt-agree m n _ _ no_parameters h = no_parameters
ParametersAt-agree m n _ _ (at k args q z v) h =
    at k args q z (IsString-agree m n q args v (λ a le ge. h a z le))

line-Nonempty :
    (m : ℕ → ℕ) (p a c : ℕ) (cs : List ℕ) → IsString m p (replicate a b' ' ++ c ∷ cs) → m p ≢ 0
line-Nonempty m p zero c cs (char _ _ _ e n b rest) z = n (sym e ∙ z)
line-Nonempty m p (suc a) c cs (char _ _ _ e n b rest) z = n (sym e ∙ z)

parser-runs :
    (fuel : ℕ) (name : InternalCommand → ℕ) (p : ℕ) (m : ℕ → ℕ) (s : Split) (m' : ℕ → ℕ)
    (o : Option InternalCommand) (cmd : ℕ)
    → (m p == 0) ≡ false
    → split_line fuel p m ≡ some s
    → s.cmd ≡ cmd
    → strupr fuel s.memory cmd ≡ some m'
    → find_command fuel name m' cmd internal_cmds ≡ some o
    → parser fuel name p m ≡ some (m', call_of o cmd s.parameters)
unfolding parser
parser-runs fuel name p m s m' none cmd test split e run find =
    rw (parser, test, split, e, run, e, find, e) refl
parser-runs fuel name p m s m' (some c) cmd test split e run find =
    rw (parser, test, split, e, run, e, find) refl

-- The parser takes the first word of a line, in capitals, for the name of a command: it calls the
-- routine of the first command with that name, and Hshp_CMD_excute where there is none, with what
-- follows the spaces behind the word, or NULL where nothing does.
pub parser-Parsed :
    (fuel : ℕ) (name : InternalCommand → ℕ) (m : ℕ → ℕ) (p q a c : ℕ) (w : List ℕ)
    (rest : Option (ℕ × List ℕ))
    → IsString m p (replicate a b' ' ++ ((c ∷ w) ++ tail_of rest))
    → Word (c ∷ w)
    → Trimmed rest
    → Names m name p q
    → p + a + length (c ∷ w) < q
    → a < fuel
    → length (c ∷ w) < fuel
    → spaces_of rest < fuel
    → (m' : ℕ → ℕ) × (call : Call) × (parser fuel name p m ≡ some (m', call))
      × Parsed (p + a) (c ∷ w) rest m' call
unfolding parser
parser-Parsed fuel name m p q a c w rest v word t names inside la lw ls =
    let (s, split, d) = split_line-Splits fuel m p a c w rest v word t la (omega (arith, lw)) ls in
    let (m', run, raised) = strupr-Raised_longer fuel s.memory (p + a) (c ∷ w) lw d.word in
    let outside : (x : ℕ) → (x < p) ⊎ (q ≤ x) → m' x ≡ m x = λ x h.
      raised.others x (ground (arith, h, inside))
      ∙ d.others x (λ e. ground (arith, e, h, inside)) in
    let kept = Names-agree m m' name p q names outside in
    let short : length (map to_upper (c ∷ w)) < fuel = omega (arith, length-map to_upper w, lw) in
    let (o, find, found) =
      find_command-Found fuel name m' (p + a) (map to_upper (c ∷ w)) raised.raised kept.text short
        internal_cmds in
    let test : (m p == 0) ≡ false = ground (arith, line-Nonempty m p a c _ v) in
    (
      m',
      call_of o (p + a) s.parameters,
      parser-runs fuel name p m s m' o (p + a) test split d.cmd_eq run find,
      record {
        command = o;
        parameters = s.parameters;
        found = found;
        call_eq = refl;
        word = raised.raised;
        parameters_at =
            ParametersAt-agree s.memory m' rest s.parameters d.parameters_at
              (λ x z le. raised.others x (ground (arith, z, le, d.behind)));
      },
    )
