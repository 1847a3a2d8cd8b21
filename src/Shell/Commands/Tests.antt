-- ===== src/Shell/Commands/Tests.antt =====
-- DIR on a directory with a file that was deleted and one that is there.
use mylysos.Base.{false, ℕ, [], ◌∷◌, ltb, if◌then◌else◌}
use mylysos.Memory.Samples.{pool}
use mylysos.FileSystem.Directory.{DirectoryEntry, Volume}
use mylysos.Shell.Commands.Listed.{Listed}

abbrev part : ℕ → ℕ → ℕ
part c i = if ltb i 1 then c else b' '

abbrev entry : (first attribute : ℕ) → DirectoryEntry
entry first attribute = record {
  filename = part first;
  extension = part b'C';
  attribute = attribute;
  time = 0xc000;
  date = 0x2000;
  cluster = 2;
  filesize = 1000;
}

abbrev volume : Volume
volume = record {
  dir_entries = entry 0xe5 0x20 ∷ entry b'A' 0x20 ∷ entry b'D' 0x10 ∷ [];
  memory = λ a. 0;
  block = λ h. record {
    found = false;
    pt_filename = 0;
    attribute = 0;
    filesize = 0;
    cur_cluster = 0;
    bytesread = 0;
    buffer = λ j. 0;
  };
  pool = pool;
}
