-- ===== src/Shell/Session/Tests.antt =====
-- The keys d, s, backspace, TAB and Enter.
use mylysos.Base.{ℕ, ◌≡◌, refl, List, [], ◌∷◌}
use mylysos.Shell.{InternalCommand, ShellState}
use mylysos.Shell.Typing.{edited, but_last}
use mylysos.Shell.Session.{edited_by}

abbrev state : ShellState
state = record { memory = λ a. 0xcc; cmd_next_pos = 0; calls = [] }

abbrev keys : List (ℕ × ℕ)
keys = (4, b'd') ∷ (5, b's') ∷ (6, 8) ∷ (5, 9) ∷ []

abbrev name : InternalCommand → ℕ
name c = 1000

typed_line : edited_by keys [] ≡ b'd' ∷ b' ' ∷ []
unfolding edited_by edited but_last
typed_line = refl
