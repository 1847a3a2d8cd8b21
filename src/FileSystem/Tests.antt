-- ===== src/FileSystem/Tests.antt =====
-- A file of 1000 bytes in the clusters 2 and 3, and the theorems on it.
use mylysos.Base.{
  ℕ, true, ◌+◌, ◌-◌, ◌%◌, ◌^◌, ◌≡◌, refl, ap, ◌∙◌, Option, some, arith, ltb, if◌then◌else◌,
}
use mylysos.FileSystem.{FileControlBlock, ReadState, get_next_cluster, read_file}
use mylysos.FileSystem.Fat.{packed, get_next_cluster-packed}
use mylysos.FileSystem.Read.{OnDisk, IsOpen, byte_at}
use mylysos.FileSystem.Read.Whole.{read_file-byte_at}

-- Each cluster is linked to the next one.
abbrev fat : ℕ → ℕ
fat = packed (λ c. (c + 1) % 2 ^ 12)

abbrev clusters : ℕ → ℕ
clusters i = i + 2

abbrev sectors : ℕ → ℕ → ℕ
sectors i j = i + j

abbrev read_sector : ℕ → Option (ℕ → ℕ)
read_sector n = some (sectors (n - 33))

abbrev file : FileControlBlock
file = record {
  found = true;
  pt_filename = 0;
  attribute = 1;
  filesize = 1000;
  cur_cluster = 2;
  bytesread = 0;
  buffer = sectors 0;
}

file-OnDisk : OnDisk read_sector fat clusters sectors 1000
file-OnDisk = record {
  linked = λ i h.
      get_next_cluster-packed (λ c. (c + 1) % 2 ^ 12) (i + 2) (omega (arith, h)) (omega arith)
        (omega arith)
      ∙ omega (arith, h);
  from = λ i h. omega arith;
  to = λ i h. omega (arith, h);
  readable = λ i h. ap (λ n. some (sectors n)) (omega (arith, h));
  small = omega arith;
}

file-IsOpen : IsOpen read_sector fat clusters sectors 1000 file
file-IsOpen = record {
  size_eq = refl;
  within = omega arith;
  cluster_eq = λ h. refl;
  buffer_eq = λ h. refl;
}

-- The table is the one that FspGetNextCluster reads.
second_cluster : get_next_cluster fat 2 ≡ 3
unfolding get_next_cluster packed
second_cluster = refl

read_file-byte_at_example :
    (s : ReadState) × (read_file read_sector fat file (λ j. 7) 600 ≡ some s)
    × (s.bytes_read ≡ 600)
    × (s.file.bytesread ≡ 600)
    × IsOpen read_sector fat clusters sectors 1000 s.file
    × (s.data_out 515
        ≡ (if ltb 515 600 then byte_at read_sector fat clusters sectors 1000 (0 + 515) else 7))
read_file-byte_at_example =
    read_file-byte_at read_sector fat clusters sectors 1000 file (λ j. 7) 600 515 file-OnDisk
      file-IsOpen (omega arith)
