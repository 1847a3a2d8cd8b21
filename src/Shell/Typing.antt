-- ===== src/Shell/Typing.antt =====
-- The line that is typed at the prompt.
use mylysos.Base.{
  ℕ, suc, ◌+◌, ◌-◌, ◌<◌, ◌^◌, ◌≡◌, ◌≢◌, inl, inr, refl, sym, ap, ◌∙◌, true, false, List, [], ◌∷◌,
  ◌++◌, length, length-append, arith, ltb, leb, ◌==◌, if◌then◌else◌, Bool-cases, update,
  update_self, update_ne, Run, ok,
}
use mylysos.Strings.Walks.{IsString, terminator, char}
use mylysos.Shell.{
  InternalCommand, ShellState, max_cmd_line_char, shell_prompt_length, write_cmd_line, add_char,
  erase_char, shell_round,
}

-- The characters stand in memory from an address on.
pub data Chars (m : ℕ → ℕ) : ℕ → List ℕ → Type 0 where
  nothing_more : (p : ℕ) → Chars m p []
  one_more :
      (p c : ℕ) (cs : List ℕ)
      → m p ≡ c
      → c ≢ 0
      → c < 2 ^ 8
      → Chars m (p + 1) cs
      → Chars m p (c ∷ cs)

pub Chars-agree :
    (m n : ℕ → ℕ) (p : ℕ) (cs : List ℕ)
    → Chars m p cs
    → ((a : ℕ) → a < p + length cs → n a ≡ m a)
    → Chars n p cs
Chars-agree m n p _ (nothing_more _) h = nothing_more p
Chars-agree m n p _ (one_more _ c cs e z b rest) h =
    one_more p c cs (h p (omega arith) ∙ e) z b
      (Chars-agree m n (p + 1) cs rest (λ a q. h a (omega (arith, q))))

Chars-snoc :
    (m : ℕ → ℕ) (p : ℕ) (cs : List ℕ) (c : ℕ)
    → Chars m p cs
    → m (p + length cs) ≡ c
    → c ≢ 0
    → c < 2 ^ 8
    → Chars m p (cs ++ c ∷ [])
Chars-snoc m p [] c v e n b = one_more p c [] (ap m (omega arith) ∙ e) n b (nothing_more (p + 1))
Chars-snoc m p (d ∷ cs) c (one_more _ _ _ f z y rest) e n b =
    one_more p d (cs ++ c ∷ []) f z y (Chars-snoc m (p + 1) cs c rest (ap m (omega arith) ∙ e) n b)

pub IsString-of_chars :
    (m : ℕ → ℕ) (p : ℕ) (cs : List ℕ) → Chars m p cs → m (p + length cs) ≡ 0 → IsString m p cs
IsString-of_chars m p [] v e = terminator p (ap m (omega arith) ∙ e)
IsString-of_chars m p (c ∷ cs) (one_more _ _ _ f n b rest) e =
    char p c cs f n b (IsString-of_chars m (p + 1) cs rest (ap m (omega arith) ∙ e))

-- All but the last character.
unfoldable pub but_last : List ℕ → List ℕ
but_last [] = []
but_last (c ∷ []) = []
but_last (c ∷ d ∷ cs) = c ∷ but_last (d ∷ cs)

Chars-but_last : (m : ℕ → ℕ) (p : ℕ) (cs : List ℕ) → Chars m p cs → Chars m p (but_last cs)
unfolding but_last
Chars-but_last m p [] v = v
Chars-but_last m p (c ∷ []) v = nothing_more p
Chars-but_last m p (c ∷ d ∷ cs) (one_more _ _ _ e n b rest) =
    one_more p c _ e n b (Chars-but_last m (p + 1) (d ∷ cs) rest)

length-but_last : (c : ℕ) (cs : List ℕ) → length (but_last (c ∷ cs)) ≡ length cs
unfolding but_last
length-but_last c [] = refl
length-but_last c (d ∷ cs) = ap suc (length-but_last d cs)

-- What a line editor makes of a line when a key is pressed: the backspace takes the last character
-- away, the TAB is a space.
unfoldable pub edited : (key : ℕ) → List ℕ → List ℕ
edited key cs =
    if key == 8 then but_last cs else if key == 9 then cs ++ b' ' ∷ [] else cs ++ key ∷ []

-- The line that the shell holds.
pub record Holds (cmd_line : ℕ) (s : ShellState) (cs : List ℕ) : Type 0 where
  pub count : s.cmd_next_pos ≡ length cs
  pub chars : Chars s.memory cmd_line cs

-- A key that does not end the line, typed where the line has room for it. The cursor is behind the
-- prompt where the key is a backspace.
pub record Typed (cursor_x key : ℕ) (cs : List ℕ) : Type 0 where
  pub printable : key ≢ 0
  pub byte : key < 2 ^ 8
  pub not_enter : key ≢ 13
  pub room : length cs < max_cmd_line_char
  pub erasable : key ≡ 8 → (0 < length cs) × (shell_prompt_length < cursor_x)

-- What the shell holds behind a function, and that it has called nothing meanwhile.
pub data Edits (cmd_line : ℕ) (s : ShellState) (cs : List ℕ)
    : Run ShellState (Unit {0}) → Type 0 where
  edits :
      (s' : ShellState) → Holds cmd_line s' cs → s'.calls ≡ s.calls → Edits cmd_line s cs (ok tt s')

module _ (cmd_line : ℕ) (s : ShellState) (cs : List ℕ) (holds : Holds cmd_line s cs) where
  add_char-Edits :
      (c : ℕ)
      → c ≢ 0
      → c < 2 ^ 8
      → length cs < max_cmd_line_char
      → Edits cmd_line s (cs ++ c ∷ []) (add_char cmd_line c s)
  unfolding add_char write_cmd_line
  add_char-Edits c n b room =
      let test : ltb s.cmd_next_pos max_cmd_line_char ≡ true = ground (arith, holds.count, room) in
      let place = cmd_line + s.cmd_next_pos in
      let m' = update s.memory place c in
      rw test (
        edits _
          (record {
            count = omega (arith, holds.count, length-append cs (c ∷ []));
            chars =
                Chars-snoc m' cmd_line cs c
                  (Chars-agree s.memory m' cmd_line cs holds.chars
                    (λ a le. update_ne s.memory place c a (λ q. omega (arith, q, le, holds.count))))
                  (ap (λ x. m' (cmd_line + x)) (sym holds.count) ∙ update_self s.memory place c) n
                  b;
          })
          refl)

module _ (cmd_line : ℕ) (s : ShellState) (c : ℕ) (cs : List ℕ)
    (holds : Holds cmd_line s (c ∷ cs)) where
  erase_char-Edits :
      (cursor_x : ℕ)
      → shell_prompt_length < cursor_x
      → length cs < max_cmd_line_char
      → Edits cmd_line s (but_last (c ∷ cs)) (erase_char cmd_line cursor_x s)
  unfolding erase_char write_cmd_line
  erase_char-Edits cursor_x behind room =
      let count : s.cmd_next_pos ≡ suc (length cs) = holds.count in
      let away : leb cursor_x shell_prompt_length ≡ false = ground (arith, behind) in
      let some_char : (s.cmd_next_pos == 0) ≡ false = ground (arith, count) in
      let test : ltb (s.cmd_next_pos - 1) max_cmd_line_char ≡ true = ground (arith, count, room) in
      let place = cmd_line + (s.cmd_next_pos - 1) in
      let shorter = length-but_last c cs in
      rw (away, some_char, test)
        (edits _
          (record {
            count = omega (arith, count, shorter);
            chars =
                Chars-agree s.memory _ cmd_line _
                  (Chars-but_last s.memory cmd_line (c ∷ cs) holds.chars)
                  (λ a le.
                    update_ne s.memory place 0 a (λ q. omega (arith, q, le, count, shorter)));
          })
          refl)

module _ (fuel : ℕ) (name : InternalCommand → ℕ) (cmd_line : ℕ) where
  -- A round for a key that does not end the line does to it what a line editor does.
  pub shell_round-Edits :
      (s : ShellState) (cs : List ℕ) (cursor_x key : ℕ)
      → Holds cmd_line s cs
      → Typed cursor_x key cs
      → Edits cmd_line s (edited key cs) (shell_round fuel name cmd_line cursor_x key s)
  unfolding shell_round edited
  shell_round-Edits s cs cursor_x key h t = elim (Bool-cases (key == 8)) [
    | inl e ↦ rw e (erase cs h t (ground (arith, e)))
    | inr e ↦
        let plain : (key == 13) ≡ false = ground (arith, t.not_enter) in
        elim (Bool-cases (key == 9)) [
          | inl q ↦
              rw (e, plain, q)
                (add_char-Edits cmd_line s cs h b' ' (λ z. omega (arith, z)) (omega arith) t.room)
          | inr q ↦ rw (e, plain, q) (add_char-Edits cmd_line s cs h key t.printable t.byte t.room)
        ]
  ]
    where
      erase :
          (cs : List ℕ)
          → Holds cmd_line s cs
          → Typed cursor_x key cs
          → key ≡ 8
          → Edits cmd_line s (but_last cs) (erase_char cmd_line cursor_x s)
      erase [] h t e = absurd (omega (arith, (t.erasable e).0))
      erase (c ∷ cs) h t e =
          erase_char-Edits cmd_line s c cs h cursor_x (t.erasable e).1 (omega (arith, t.room))
