-- ===== src/Shell.antt =====
-- The shell, mylysos/hshell.c: the line that is typed, and what the parser makes of it. The bytes of
-- memory are a function from the address; `cmd_line` is the address of m_CmdLine, and `name` gives
-- those of the names of the commands.
pub mod Words
pub mod Parsing
pub mod Typing
pub mod Commands
pub mod Session
use mylysos.Base.{
  ℕ, zero, suc, ◌+◌, ◌-◌, Bool, true, false, ◌||◌, ◌&&◌, not, Option, none, some, List, [], ◌∷◌,
  ltb, leb, ◌==◌, if◌then◌else◌, update, Run, ok, fault, hung, Cmd, pure, ◌>>=◌, ◌>>◌,
}
use mylysos.Strings.{strcmp, strupr}

abbrev pub max_cmd_line_char : ℕ
max_cmd_line_char = 128

abbrev pub shell_prompt_length : ℕ
shell_prompt_length = 4

-- The commands of the shell, by their routines.
pub data InternalCommand : Type 0 where
  cmd_help : InternalCommand
  cmd_cls : InternalCommand
  cmd_ver : InternalCommand
  cmd_toggle : InternalCommand
  cmd_dir : InternalCommand
  cmd_type : InternalCommand
  cmd_ps : InternalCommand
  cmd_free : InternalCommand

-- m_InternalCmds, in its order.
abbrev pub internal_cmds : List InternalCommand
internal_cmds =
    cmd_help ∷ cmd_cls ∷ cmd_ver ∷ cmd_toggle ∷ cmd_dir ∷ cmd_type ∷ cmd_ps ∷ cmd_free ∷ []

-- What HshpParser calls: nothing, the routine of a command, or Hshp_CMD_excute; the arguments are
-- addresses, 0 for NULL.
pub data Call : Type 0 where
  nothing : Call
  internal : InternalCommand → (parameters : ℕ) → Call
  excute : (cmd parameters : ℕ) → Call

-- The loops over spaces and over the characters of a word, from an address on.
unfoldable pub skip_spaces : (fuel : ℕ) → (memory : ℕ → ℕ) → (i : ℕ) → Option ℕ
skip_spaces zero memory i = none
skip_spaces (suc fuel) memory i =
    let rest = skip_spaces fuel memory (i + 1) in if memory i == b' ' then rest else some i

unfoldable pub skip_word : (fuel : ℕ) → (memory : ℕ → ℕ) → (i : ℕ) → Option ℕ
skip_word zero memory i = none
skip_word (suc fuel) memory i =
    let rest = skip_word fuel memory (i + 1) in
    if not (memory i == 0) && not (memory i == b' ') then rest else some i

-- `pt_cmd` and `pt_parameters`, and the memory in which the word has its terminator.
pub record Split : Type 0 where
  pub cmd : ℕ
  pub parameters : ℕ
  pub memory : ℕ → ℕ

-- HshpParser up to $find, for a line that is not empty.
unfoldable pub split_line : (fuel cmd_line : ℕ) → (memory : ℕ → ℕ) → Option Split
split_line fuel cmd_line memory = elim (skip_spaces fuel memory cmd_line) [
  | none ↦ none
  | some cmd ↦ elim (skip_word fuel memory (cmd + 1)) [
    | none ↦ none
    | some i ↦
        if memory i == 0
        then some (record { cmd = cmd; parameters = 0; memory = memory })
        else elim (skip_spaces fuel (update memory i 0) (i + 1)) [
          | none ↦ none
          | some p ↦ some (record { cmd = cmd; parameters = p; memory = update memory i 0 })
        ]
  ]
]

-- The loop over m_InternalCmds.
unfoldable pub find_command :
    (fuel : ℕ)
    → (name : InternalCommand → ℕ) → (memory : ℕ → ℕ) → (cmd : ℕ) → List InternalCommand
    → Option (Option InternalCommand)
find_command fuel name memory cmd [] = some none
find_command fuel name memory cmd (c ∷ cs) =
    let rest = find_command fuel name memory cmd cs in
    elim (strcmp fuel memory cmd (name c)) [
      | none ↦ none
      | some r ↦ if r == 0 then some (some c) else rest
    ]

-- HshpParser: the memory behind it, and what it calls.
unfoldable pub parser :
    (fuel : ℕ)
    → (name : InternalCommand → ℕ) → (cmd_line : ℕ) → (memory : ℕ → ℕ) → Option ((ℕ → ℕ) × Call)
parser fuel name cmd_line memory =
    if memory cmd_line == 0
    then some (memory, nothing)
    else elim (split_line fuel cmd_line memory) [
      | none ↦ none
      | some s ↦ elim (strupr fuel s.memory s.cmd) [
        | none ↦ none
        | some memory ↦ elim (find_command fuel name memory s.cmd internal_cmds) [
          | none ↦ none
          | some none ↦ some (memory, excute s.cmd s.parameters)
          | some (some c) ↦ some (memory, internal c s.parameters)
        ]
      ]
    ]

-- What the loop of HshpMainThread keeps, and the calls of the parser so far, the last one first.
pub record ShellState : Type 0 where
  pub memory : ℕ → ℕ
  pub cmd_next_pos : ℕ
  pub calls : List Call

-- A write to m_CmdLine, whose index is not tested.
unfoldable pub write_cmd_line : (cmd_line i c : ℕ) → Cmd ShellState (Unit {0})
write_cmd_line cmd_line i c s =
    if ltb i max_cmd_line_char
    then ok tt (record s { memory = update s.memory (cmd_line + i) c })
    else fault

unfoldable pub add_char : (cmd_line c : ℕ) → Cmd ShellState (Unit {0})
add_char cmd_line c s =
    write_cmd_line cmd_line s.cmd_next_pos c (record s { cmd_next_pos = s.cmd_next_pos + 1 })

-- The backspace, unless the cursor is next to the prompt.
unfoldable pub erase_char : (cmd_line cursor_x : ℕ) → Cmd ShellState (Unit {0})
erase_char cmd_line cursor_x s =
    if leb cursor_x shell_prompt_length
    then ok tt s
    else if s.cmd_next_pos == 0
    then fault
    else write_cmd_line cmd_line (s.cmd_next_pos - 1) 0
        (record s { cmd_next_pos = s.cmd_next_pos - 1 })

-- HshpParser on the line, which is empty behind it.
unfoldable pub run_parser :
    (fuel : ℕ) → (name : InternalCommand → ℕ) → (cmd_line : ℕ) → Cmd ShellState (Unit {0})
run_parser fuel name cmd_line s = elim (parser fuel name cmd_line s.memory) [
  | none ↦ hung
  | some (memory, call) ↦
      write_cmd_line cmd_line 0 0
        (record s { memory = memory; calls = call ∷ s.calls; cmd_next_pos = 0 })
]

-- The Enter key.
unfoldable pub run_line :
    (fuel : ℕ) → (name : InternalCommand → ℕ) → (cmd_line : ℕ) → Cmd ShellState (Unit {0})
run_line fuel name cmd_line s =
    (write_cmd_line cmd_line s.cmd_next_pos 0 >> run_parser fuel name cmd_line) s

-- A round of HshpMainThread, for a general key; `cursor_x` is what CrtGetCursorPos gives.
unfoldable pub shell_round :
    (fuel : ℕ)
    → (name : InternalCommand → ℕ) → (cmd_line cursor_x key : ℕ) → Cmd ShellState (Unit {0})
shell_round fuel name cmd_line cursor_x key =
    if key == 8
    then erase_char cmd_line cursor_x
    else if key == 13
    then run_line fuel name cmd_line
    else if key == 9
    then add_char cmd_line b' '
    else add_char cmd_line key

-- The loop of HshpMainThread on the keys that come in, each with the column of the cursor.
unfoldable pub shell_rounds :
    (fuel : ℕ)
    → (name : InternalCommand → ℕ) → (cmd_line : ℕ) → List (ℕ × ℕ)
    → Cmd ShellState (Unit {0})
shell_rounds fuel name cmd_line [] = pure tt
shell_rounds fuel name cmd_line ((cursor_x, key) ∷ keys) =
    shell_round fuel name cmd_line cursor_x key >> shell_rounds fuel name cmd_line keys
