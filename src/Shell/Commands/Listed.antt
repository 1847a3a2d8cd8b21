-- ===== src/Shell/Commands/Listed.antt =====
-- What the command DIR prints.
use mylysos.Base.{ℕ, ◌+◌, ◌≡◌, Bool, true, false, List, [], ◌∷◌, if◌then◌else◌, u16, u32, Run, ok}
use mylysos.Strings.Walks.{IsString}
use mylysos.FileSystem.Directory.{DirectoryEntry, Volume, file_info, is_unused}
use mylysos.FileSystem.Names.{dotted}
use mylysos.Shell.Commands.{DirCmdContext, DirLine, is_directory, dir_line}

-- The entries that are in use.
unfoldable pub in_use : List DirectoryEntry → List DirectoryEntry
in_use [] = []
in_use (e ∷ es) = if is_unused e then in_use es else e ∷ in_use es

-- The number of entries that are directories, or of those that are not.
unfoldable pub number_of : (directories : Bool) → List DirectoryEntry → ℕ
number_of d [] = 0
number_of d (e ∷ es) =
    if is_directory (file_info e 0)
    then (if d then number_of d es + 1 else number_of d es)
    else if d
    then number_of d es
    else number_of d es + 1

unfoldable pub bytes_of : List DirectoryEntry → ℕ
bytes_of [] = 0
bytes_of (e ∷ es) = e.filesize + bytes_of es

-- The lines are those of the entries, in their order, each with the name of its entry; the last one
-- is the first in the list.
pub data Printed (info : ℕ) : List DirectoryEntry → (before after : List DirLine) → Type 0 where
  no_line : (ls : List DirLine) → Printed info [] ls ls
  line :
      (e : DirectoryEntry) (es : List DirectoryEntry) (m : ℕ → ℕ) (ls after : List DirLine)
      → IsString m info (dotted e)
      → Printed info es (dir_line (file_info e info) m ∷ ls) after
      → Printed info (e ∷ es) ls after

-- What the listing adds to its context.
pub record Listed (info : ℕ) (es : List DirectoryEntry) (c : DirCmdContext) (ls : List DirLine)
    (r : Run Volume (DirCmdContext × List DirLine)) : Type 0 where
  pub totals : DirCmdContext
  pub lines : List DirLine
  pub state : Volume
  pub returned : r ≡ ok (totals, lines) state
  pub printed : Printed info es ls lines
  pub files : u16 totals.file_cnt ≡ u16 (c.file_cnt + number_of false es)
  pub directories : u16 totals.dir_cnt ≡ u16 (c.dir_cnt + number_of true es)
  pub bytes : u32 totals.total_file_size ≡ u32 (c.total_file_size + bytes_of es)
