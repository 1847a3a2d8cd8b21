-- ===== src/FileSystem.antt =====
-- The file system, mylysos/fatfs.c: FAT12 on a floppy disk. FddReadSector is a parameter, `none`
-- for FALSE: it gives the bytes of a sector. An array of bytes is a function from the index.
pub mod Fat
pub mod Memcpy
pub mod Rounds
pub mod Read
pub mod Directory
pub mod Names
pub mod Lookup
pub mod Open
pub mod Opening
mod Tests
use mylysos.Base.{
  ℕ, zero, suc, ◌+◌, ◌-◌, ◌*◌, ◌/◌, ◌%◌, ◌^◌, Bool, true, false, ◌||◌, not, Option, none, some, ltb,
  leb, ◌==◌, if◌then◌else◌, update, u16, u32, sub32,
}

abbrev pub bytes_per_sector : ℕ
bytes_per_sector = 512

abbrev pub cluster_offset : ℕ
cluster_offset = 0x21 - 2

pub record FileControlBlock : Type 0 where
  pub found : Bool
  pub pt_filename : ℕ
  pub attribute : ℕ
  pub filesize : ℕ
  pub cur_cluster : ℕ
  pub bytesread : ℕ
  pub buffer : ℕ → ℕ

-- FspGetNextCluster. The two bytes of the entry are joined, as their bits are disjoint, and the
-- shift and the mask are a quotient and a remainder.
unfoldable pub get_next_cluster : (fat : ℕ → ℕ) → (cur_cluster : ℕ) → ℕ
get_next_cluster fat cur_cluster =
    let odd = cur_cluster % 2 == 1 in
    let fat_entry = if odd then u16 (cur_cluster / 2 * 3 + 1) else u16 (cur_cluster / 2 * 3) in
    let cluster = u16 (fat fat_entry + fat (fat_entry + 1) * 2 ^ 8) in
    if odd then cluster / 2 ^ 4 else cluster % 2 ^ 12

-- memcpy from one array into another.
unfoldable pub memcpy : (count : ℕ) → (src : ℕ → ℕ) → (src_pos dest_pos : ℕ) → (ℕ → ℕ) → ℕ → ℕ
memcpy zero src src_pos dest_pos dest = dest
memcpy (suc count) src src_pos dest_pos dest =
    memcpy count src (src_pos + 1) (dest_pos + 1) (update dest dest_pos (src src_pos))

-- What the loop of FsReadFile keeps.
pub record ReadState : Type 0 where
  pub file : FileControlBlock
  pub data_out : ℕ → ℕ
  pub bytes_read : ℕ

module _ (read_sector : ℕ → Option (ℕ → ℕ)) (fat : ℕ → ℕ) where
  -- The end of a round, at the end of a sector: the next cluster is read; false ends the loop.
  unfoldable pub load_next : FileControlBlock → Bool × FileControlBlock
  load_next f =
      let next = get_next_cluster fat f.cur_cluster in
      let f = record f { cur_cluster = next } in
      if ltb next 0x2 || ltb 0xfef next
      then (false, f)
      else elim (read_sector (u16 (next + cluster_offset))) [
        | none ↦ (false, f)
        | some sector ↦ (true, record f { buffer = sector })
      ]

  -- The loop of FsReadFile; `pos_of_userdata` is always `bytes_read`. `none` where the fuel is used
  -- up; a round for each byte is enough.
  unfoldable pub read_loop : ℕ → (bytes_to_read : ℕ) → ReadState → Option ReadState
  read_loop zero bytes_to_read s = if bytes_to_read == 0 then some s else none
  read_loop (suc fuel) bytes_to_read s =
      let pos_of_buffer = s.file.bytesread % bytes_per_sector in
      let room = bytes_per_sector - pos_of_buffer in
      let cur = if ltb bytes_to_read room then bytes_to_read else room in
      let file = record s.file { bytesread = u32 (s.file.bytesread + cur) } in
      let moved : ReadState = record {
        file = file;
        data_out = memcpy cur s.file.buffer pos_of_buffer s.bytes_read s.data_out;
        bytes_read = s.bytes_read + cur;
      } in
      let (more, next) = load_next file in
      let loaded : ReadState = record moved { file = next } in
      let rest = read_loop fuel (bytes_to_read - cur) moved in
      let rest_loaded = read_loop fuel (bytes_to_read - cur) loaded in
      if bytes_to_read == 0
      then some s
      else if not (u32 (s.file.bytesread + cur) % bytes_per_sector == 0)
      then rest
      else if more
      then rest_loaded
      else some loaded

  -- FsReadFile, for pointers that are not NULL.
  unfoldable pub read_file :
      FileControlBlock → (data_out : ℕ → ℕ) → (number_of_bytes : ℕ) → Option ReadState
  read_file f data_out number_of_bytes =
      let start : ReadState = record { file = f; data_out = data_out; bytes_read = 0 } in
      let wanted =
        if ltb (u32 (f.bytesread + number_of_bytes)) f.filesize
        then number_of_bytes
        else f.filesize - f.bytesread in
      if number_of_bytes == 0
      then some start
      else if leb f.filesize f.bytesread
      then some start
      else read_loop wanted wanted start
