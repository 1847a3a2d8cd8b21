-- ===== src/FileSystem/Rounds.antt =====
-- A round of the loop of FsReadFile, by where it ends.
use mylysos.Base.{
  ℕ, zero, suc, ◌+◌, ◌-◌, ◌%◌, ◌≤◌, ◌≡◌, ◌≢◌, refl, true, false, Option, some, arith, ltb,
  if◌then◌else◌, u16, u32,
}
use mylysos.FileSystem.{
  FileControlBlock, ReadState, bytes_per_sector, cluster_offset, get_next_cluster, memcpy,
  load_next, read_loop,
}

-- The state after the bytes of a round are copied.
abbrev pub moved : (c : ℕ) → ReadState → ReadState
moved c s = record {
  file = record s.file { bytesread = u32 (s.file.bytesread + c) };
  data_out = memcpy c s.file.buffer (s.file.bytesread % bytes_per_sector) s.bytes_read s.data_out;
  bytes_read = s.bytes_read + c;
}

abbrev pub size_of_round : (n : ℕ) → ReadState → ℕ
size_of_round n s =
    let room = bytes_per_sector - s.file.bytesread % bytes_per_sector in
    if ltb n room then n else room

module _ (read_sector : ℕ → Option (ℕ → ℕ)) (fat : ℕ → ℕ) where
  pub loop-end : (fuel : ℕ) (s : ReadState) → read_loop read_sector fat fuel 0 s ≡ some s
  unfolding read_loop
  loop-end zero s = refl
  loop-end (suc fuel) s = refl

  pub loop-inside :
      (fuel n c : ℕ) (s : ReadState)
      → n ≢ 0
      → size_of_round n s ≡ c
      → u32 (s.file.bytesread + c) % bytes_per_sector ≢ 0
      → read_loop read_sector fat (suc fuel) n s
        ≡ read_loop read_sector fat fuel (n - c) (moved c s)
  unfolding read_loop
  loop-inside fuel n c s ne e z = ground (arith, e, z)

  pub loop-more :
      (fuel n c : ℕ) (s : ReadState) (f : FileControlBlock)
      → n ≢ 0
      → size_of_round n s ≡ c
      → u32 (s.file.bytesread + c) % bytes_per_sector ≡ 0
      → load_next read_sector fat (moved c s).file ≡ (true, f)
      → read_loop read_sector fat (suc fuel) n s
        ≡ read_loop read_sector fat fuel (n - c) (record (moved c s) { file = f })
  unfolding read_loop
  loop-more fuel n c s f ne e z l = ground (arith, e, z, l)

  pub loop-stop :
      (fuel n c : ℕ) (s : ReadState) (f : FileControlBlock)
      → n ≢ 0
      → size_of_round n s ≡ c
      → u32 (s.file.bytesread + c) % bytes_per_sector ≡ 0
      → load_next read_sector fat (moved c s).file ≡ (false, f)
      → read_loop read_sector fat (suc fuel) n s ≡ some (record (moved c s) { file = f })
  unfolding read_loop
  loop-stop fuel n c s f ne e z l = ground (arith, e, z, l)

  pub load_next-keeps :
      (f : FileControlBlock)
      → ((load_next read_sector fat f).1.bytesread ≡ f.bytesread)
        × ((load_next read_sector fat f).1.filesize ≡ f.filesize)
  unfolding load_next
  load_next-keeps f = (ground arith, ground arith)

  pub load_next-some :
      (f : FileControlBlock) (c : ℕ) (sector : ℕ → ℕ)
      → get_next_cluster fat f.cur_cluster ≡ c
      → 0x2 ≤ c
      → c ≤ 0xfef
      → read_sector (u16 (c + cluster_offset)) ≡ some sector
      → load_next read_sector fat f ≡ (true, record f { cur_cluster = c; buffer = sector })
  unfolding load_next
  load_next-some f c sector e lo hi r = ground (arith, e, r)
