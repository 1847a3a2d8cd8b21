-- ===== src/Shell/Session.antt =====
-- A line that is typed and entered.
mod Tests
use mylysos.Base.{
  ℕ, zero, suc, ◌≤◌, ◌≡◌, ◌≢◌, false, Option, none, some, List, [], ◌∷◌, ◌++◌, ◌==◌, Run, ok, Cmd,
  pure, ◌>>=◌,
}
use mylysos.Strings.Walks.{IsString}
use mylysos.Shell.{InternalCommand, Call, ShellState, shell_rounds, parser}
use mylysos.Shell.Typing.{Chars, edited, Holds, Typed}

-- The line behind some keys.
unfoldable pub edited_by : List (ℕ × ℕ) → List ℕ → List ℕ
edited_by [] cs = cs
edited_by ((cursor_x, key) ∷ keys) cs = edited_by keys (edited key cs)

pub data AllTyped : List (ℕ × ℕ) → List ℕ → Type 0 where
  none_typed : (cs : List ℕ) → AllTyped [] cs
  typed :
      (cursor_x key : ℕ) (keys : List (ℕ × ℕ)) (cs : List ℕ)
      → Typed cursor_x key cs
      → AllTyped keys (edited key cs)
      → AllTyped ((cursor_x, key) ∷ keys) cs

-- What the Enter key does to the line `cs`: the parser is run on it, as a string, and the line is
-- empty again.
pub record Entered (fuel : ℕ) (name : InternalCommand → ℕ) (cmd_line : ℕ) (calls : List Call)
    (cs : List ℕ) (r : Run ShellState (Unit {0})) : Type 0 where
  pub before : ℕ → ℕ
  pub line : IsString before cmd_line cs
  pub result :
      (m' : ℕ → ℕ) (call : Call)
      → parser fuel name cmd_line before ≡ some (m', call)
      → (s' : ShellState) × (r ≡ ok tt s') × (s'.calls ≡ call ∷ calls) × Holds cmd_line s' []

module _ (fuel : ℕ) (name : InternalCommand → ℕ) (cmd_line : ℕ) where
  abbrev rounds : List (ℕ × ℕ) → (cursor_x : ℕ) → Cmd ShellState (Unit {0})
  rounds keys cursor_x = shell_rounds fuel name cmd_line (keys ++ (cursor_x, 13) ∷ [])
