-- ===== src/Shell/Words.antt =====
-- How the parser splits a line into a word and what follows.
use mathlib.Core.List.{append-nil}
use mathlib.Core.Path.{subst}
use mylysos.Base.{
  ℕ, zero, suc, ◌+◌, ◌<◌, ◌≡◌, ◌≢◌, ◌⊎◌, inl, inr, refl, sym, ap, ◌∙◌, true, false, Option, none,
  some, List, [], ◌∷◌, ◌++◌, length, replicate, get_or, arith, not, ◌&&◌, ◌==◌, update, update_self,
  update_ne,
}
use mylysos.Strings.Walks.{IsString, terminator, char, IsString-agree}
use mylysos.Shell.{skip_spaces, skip_word, split_line, Split}

-- No character is a space.
pub data Word : List ℕ → Type 0 where
  no_letter : Word []
  letter : (c : ℕ) (w : List ℕ) → c ≢ b' ' → Word w → Word (c ∷ w)

unfoldable pub first : List ℕ → ℕ
first cs = get_or cs 0 0

pub IsString-first : (m : ℕ → ℕ) (p : ℕ) (cs : List ℕ) → IsString m p cs → m p ≡ first cs
unfolding first
IsString-first m p [] (terminator _ e) = e
IsString-first m p (c ∷ cs) (char _ _ _ e n b rest) = e

IsString-tail :
    (m : ℕ → ℕ) (p c : ℕ) (cs : List ℕ) → IsString m p (c ∷ cs) → (c ≢ 0) × IsString m (p + 1) cs
IsString-tail m p c cs (char _ _ _ e n b rest) = (n, rest)

skip_spaces-past :
    (fuel : ℕ) (m : ℕ → ℕ) (p n : ℕ) (cs : List ℕ)
    → IsString m p (replicate n b' ' ++ cs)
    → first cs ≢ b' '
    → n < fuel
    → (skip_spaces fuel m p ≡ some (p + n)) × IsString m (p + n) cs
unfolding skip_spaces
skip_spaces-past zero m p n cs v f le = absurd (omega (arith, le))
skip_spaces-past (suc fuel) m p zero cs v f le =
    let test : (m p == b' ') ≡ false = ground (arith, IsString-first m p cs v, f) in
    (rw (skip_spaces, test) (ap some (omega arith)), subst (λ x. IsString m x cs) (omega arith) v)
skip_spaces-past (suc fuel) m p (suc n) cs (char _ _ _ e z b rest) f le =
    let (run, w) = skip_spaces-past fuel m (p + 1) n cs rest f (omega (arith, le)) in
    (
      rw (skip_spaces, e) (run ∙ ap some (omega arith)),
      subst (λ x. IsString m x cs) (omega arith) w,
    )

skip_word-past :
    (fuel : ℕ) (m : ℕ → ℕ) (p : ℕ) (w cs : List ℕ)
    → IsString m p (w ++ cs)
    → Word w
    → (first cs ≡ 0) ⊎ (first cs ≡ b' ')
    → length w < fuel
    → (skip_word fuel m p ≡ some (p + length w)) × IsString m (p + length w) cs
unfolding skip_word
skip_word-past zero m p w cs v word f le = absurd (omega (arith, le))
skip_word-past (suc fuel) m p [] cs v word f le =
    let test : (not (m p == 0) && not (m p == b' ')) ≡ false =
      ground (arith, IsString-first m p cs v, f) in
    (rw (skip_word, test) (ap some (omega arith)), subst (λ x. IsString m x cs) (omega arith) v)
skip_word-past (suc fuel) m p (c ∷ w) cs (char _ _ _ e z b rest) (letter _ _ s word) f le =
    let test : (not (m p == 0) && not (m p == b' ')) ≡ true = ground (arith, e, z, s) in
    let (run, v) = skip_word-past fuel m (p + 1) w cs rest word f (omega (arith, le)) in
    (
      rw (skip_word, test) (run ∙ ap some (omega arith)),
      subst (λ x. IsString m x cs) (omega arith) v,
    )

-- A word is a string where its terminator is written behind it.
IsString-cut :
    (m : ℕ → ℕ) (p : ℕ) (w cs : List ℕ)
    → IsString m p (w ++ cs)
    → IsString (update m (p + length w) 0) p w
IsString-cut m p [] cs v =
    terminator p (ap (update m (p + 0) 0) (omega arith) ∙ update_self m (p + 0) 0)
IsString-cut m p (c ∷ w) cs (char _ _ _ e z b rest) =
    char p c w (update_ne m (p + suc (length w)) 0 p (λ q. omega (arith, q)) ∙ e) z b (
      subst (λ x. IsString (update m x 0) (p + 1) w) (omega arith)
        (IsString-cut m (p + 1) w cs rest))

-- What follows the word: nothing, or spaces and the parameters.
abbrev pub tail_of : Option (ℕ × List ℕ) → List ℕ
tail_of none = []
tail_of (some (n, args)) = b' ' ∷ replicate n b' ' ++ args

-- Where the parameters stand.
pub data ParametersAt (m : ℕ → ℕ) : Option (ℕ × List ℕ) → ℕ → Type 0 where
  no_parameters : ParametersAt m none 0
  at :
      (n : ℕ) (args : List ℕ) (q : ℕ)
      → q ≢ 0
      → IsString m q args
      → ParametersAt m (some (n, args)) q

pub record Splits (m : ℕ → ℕ) (cmd : ℕ) (w : List ℕ) (rest : Option (ℕ × List ℕ)) (s : Split)
    : Type 0 where
  pub cmd_eq : s.cmd ≡ cmd
  pub word : IsString s.memory cmd w
  pub parameters_at : ParametersAt s.memory rest s.parameters
  pub behind : (s.parameters ≡ 0) ⊎ (cmd + length w < s.parameters)
  pub others : (a : ℕ) → a ≢ cmd + length w → s.memory a ≡ m a

-- The parameters do not begin with a space.
abbrev pub Trimmed : Option (ℕ × List ℕ) → Type 0
Trimmed none = Unit
Trimmed (some (n, args)) = first args ≢ b' '

abbrev pub spaces_of : Option (ℕ × List ℕ) → ℕ
spaces_of none = 0
spaces_of (some (n, args)) = n

pub split_line-Splits :
    (fuel : ℕ) (m : ℕ → ℕ) (p a c : ℕ) (w : List ℕ) (rest : Option (ℕ × List ℕ))
    → IsString m p (replicate a b' ' ++ ((c ∷ w) ++ tail_of rest))
    → Word (c ∷ w)
    → Trimmed rest
    → a < fuel
    → length w < fuel
    → spaces_of rest < fuel
    → (s : Split) × (split_line fuel p m ≡ some s) × Splits m (p + a) (c ∷ w) rest s
unfolding split_line first
split_line-Splits fuel m p a c w none v (letter _ _ n word) t la lw ls =
    let (run, at_word) = skip_spaces-past fuel m p a (c ∷ (w ++ [])) v n la in
    let (_, inner) = IsString-tail m (p + a) c (w ++ []) at_word in
    let (skip, at_end) = skip_word-past fuel m (p + a + 1) w [] inner word (inl refl) lw in
    let end : m (p + a + 1 + length w) ≡ 0 = IsString-first m _ [] at_end in
    let test : (m (p + a + 1 + length w) == 0) ≡ true = ground (arith, end) in
    (
      record { cmd = p + a; parameters = 0; memory = m },
      rw (split_line, run, skip, test) refl,
      record {
        cmd_eq = refl;
        word = subst (IsString m (p + a)) (append-nil (c ∷ w)) at_word;
        parameters_at = no_parameters;
        behind = inl refl;
        others = λ x ne. refl;
      },
    )
split_line-Splits fuel m p a c w (some (n, args)) v (letter _ _ z word) t la lw ls =
    let tail = b' ' ∷ replicate n b' ' ++ args in
    let (run, at_word) = skip_spaces-past fuel m p a (c ∷ (w ++ tail)) v z la in
    let (_, inner) = IsString-tail m (p + a) c (w ++ tail) at_word in
    let e = p + a + 1 + length w in
    let (skip, at_end) = skip_word-past fuel m (p + a + 1) w tail inner word (inr refl) lw in
    let space : m e ≡ b' ' = IsString-first m _ tail at_end in
    let test : (m e == 0) ≡ false = ground (arith, space) in
    let m' = update m e 0 in
    let (_, spaces) = IsString-tail m e b' ' (replicate n b' ' ++ args) at_end in
    let kept =
      IsString-agree m m' (e + 1) _ spaces
        (λ x q r. update_ne m e 0 x (λ y. omega (arith, y, q))) in
    let (past, at_args) = skip_spaces-past fuel m' (e + 1) n args kept t ls in
    let same : p + a + length (c ∷ w) ≡ e = omega arith in
    (
      record { cmd = p + a; parameters = e + 1 + n; memory = m' },
      rw (split_line, run, skip, test, past) refl,
      record {
        cmd_eq = refl;
        word =
            subst (λ x. IsString (update m x 0) (p + a) (c ∷ w)) same
              (IsString-cut m (p + a) (c ∷ w) tail at_word);
        parameters_at = at n args (e + 1 + n) (λ q. omega (arith, q)) at_args;
        behind = inr (omega arith);
        others = λ x ne. update_ne m e 0 x (λ q. ne (q ∙ sym same));
      },
    )
