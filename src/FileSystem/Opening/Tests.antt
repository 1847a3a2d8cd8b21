-- ===== src/FileSystem/Opening/Tests.antt =====
-- A directory with a file that was deleted and the file HI.TXT, which is opened as "hi.txt".
use mylysos.Base.{ℕ, ◌-◌, ◌≡◌, refl, false, Option, some, List, [], ◌∷◌, get_or, ltb, if◌then◌else◌}
use mylysos.Memory.Samples.{pool}
use mylysos.FileSystem.{FileControlBlock}
use mylysos.FileSystem.Directory.{DirectoryEntry, Volume}
use mylysos.FileSystem.Names.{dotted, until_space}

abbrev text : List ℕ
text = b'h' ∷ b'i' ∷ b'.' ∷ b't' ∷ b'x' ∷ b't' ∷ []

abbrev memory : ℕ → ℕ
memory a = get_or text (a - 100) 0

abbrev part : ℕ → ℕ → ℕ → ℕ
part c d i = if ltb i 1 then c else if ltb i 2 then d else b' '

abbrev deleted : DirectoryEntry
deleted = record {
  filename = part 0xe5 b'A';
  extension = part b' ' b' ';
  attribute = 0x20;
  time = 0;
  date = 0;
  cluster = 9;
  filesize = 10;
}

abbrev hi : DirectoryEntry
hi = record {
  filename = part b'H' b'I';
  extension = λ i. if ltb i 1 then b'T' else if ltb i 2 then b'X' else b'T';
  attribute = 0x20;
  time = 0;
  date = 0;
  cluster = 2;
  filesize = 1000;
}

hi_name : dotted hi ≡ b'H' ∷ b'I' ∷ b'.' ∷ b'T' ∷ b'X' ∷ b'T' ∷ []
unfolding dotted until_space
hi_name = refl

abbrev read_sector : ℕ → Option (ℕ → ℕ)
read_sector n = some (λ j. n)

abbrev closed : FileControlBlock
closed = record {
  found = false;
  pt_filename = 0;
  attribute = 0;
  filesize = 0;
  cur_cluster = 0;
  bytesread = 0;
  buffer = λ j. 0;
}

abbrev volume : Volume
volume = record {
  dir_entries = deleted ∷ hi ∷ [];
  memory = memory;
  block = λ h. closed;
  pool = pool;
}
