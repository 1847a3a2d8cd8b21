-- ===== src/FileSystem/Directory.antt =====
-- The directory in mylysos/fatfs.c: the listing of its entries, and the opening and closing of a
-- file. The bytes of memory are a function from the address; the blocks of open files are at their
-- handles, 0 for NULL.
use mylysos.Base.{
  ℕ, zero, suc, ◌+◌, Bool, true, false, ◌||◌, not, Option, none, some, List, [], ◌∷◌, ◌==◌,
  if◌then◌else◌, update, u16, ok, fault, hung, Cmd, pure, ◌>>=◌, ◌>>◌,
}
use mylysos.Memory.{MemBlkManager, allocate_non_cached_memory, free_non_cached_memory}
use mylysos.Strings.{strlen, strcmp, strupr}
use mylysos.FileSystem.{FileControlBlock, cluster_offset}

pub record DirectoryEntry : Type 0 where
  pub filename : ℕ → ℕ
  pub extension : ℕ → ℕ
  pub attribute : ℕ
  pub time : ℕ
  pub date : ℕ
  pub cluster : ℕ
  pub filesize : ℕ

-- FILE_INFO; `filename` is the address of the array.
pub record FileInfo : Type 0 where
  pub filename : ℕ
  pub attribute : ℕ
  pub time : ℕ
  pub date : ℕ
  pub filesize : ℕ
  pub start_cluster : ℕ

-- The state that the functions here share.
pub record Volume : Type 0 where
  pub dir_entries : List DirectoryEntry
  pub memory : ℕ → ℕ
  pub block : ℕ → FileControlBlock
  pub pool : MemBlkManager

-- A loop that copies at most `room` more bytes of a name or an extension up to a space, from the
-- index `j` on: the memory and the index behind it.
unfoldable pub copy_part :
    (room : ℕ) → (part : ℕ → ℕ) → (dest j : ℕ) → (memory : ℕ → ℕ) → (ℕ → ℕ) × ℕ
copy_part zero part dest j memory = (memory, j)
copy_part (suc room) part dest j memory =
    let rest = copy_part room part dest (j + 1) (update memory (dest + j) (part j)) in
    if part j == b' ' then (memory, j) else rest

-- The name with its dot and terminator, written to `filename` of the FILE_INFO.
unfoldable pub write_filename : DirectoryEntry → (filename : ℕ) → (memory : ℕ → ℕ) → ℕ → ℕ
write_filename e filename memory =
    let (memory, j) = copy_part 8 e.filename filename 0 memory in
    let memory = update memory (filename + j) b'.' in
    let k = j + 1 in
    let (memory, j) = copy_part 3 e.extension (filename + k) 0 memory in
    update memory (filename + k + j) 0

abbrev pub file_info : DirectoryEntry → (filename : ℕ) → FileInfo
file_info e filename = record {
  filename = filename;
  attribute = e.attribute;
  time = e.time;
  date = e.date;
  filesize = e.filesize;
  start_cluster = e.cluster;
}

-- The test for an entry that was never used or whose file was deleted.
unfoldable pub is_unused : DirectoryEntry → Bool
is_unused e = e.filename 0 == 0xe5 || e.filename 0 == 0

-- The loop of FsGetFileList over the entries; `info` is the address of its FileInfo, and the
-- context is what the callback keeps.
unfoldable pub list_entries :
    {C : Type 0}
    → (callback : FileInfo → C → Cmd Volume (Bool × C)) → (info : ℕ) → List DirectoryEntry
    → C
    → Cmd Volume C
list_entries callback info [] context v = ok context v
list_entries callback info (e ∷ es) context v =
    let rest = list_entries callback info es in
    if is_unused e
    then rest context v
    else (callback (file_info e info) context >>= λ answer.
          if answer.0 then rest answer.1 else pure answer.1)
        (record v { memory = write_filename e info v.memory })

-- FsGetFileList.
unfoldable pub get_file_list :
    {C : Type 0} → (callback : FileInfo → C → Cmd Volume (Bool × C)) → (info : ℕ) → C → Cmd Volume C
get_file_list callback info context v = list_entries callback info v.dir_entries context v

-- Fsp_of_callback; the context is the handle of the file.
unfoldable pub of_callback : (fuel : ℕ) → FileInfo → (handle : ℕ) → Cmd Volume (Bool × ℕ)
of_callback fuel i handle v =
    let f = v.block handle in
    elim (strcmp fuel v.memory i.filename f.pt_filename) [
      | none ↦ hung
      | some r ↦
          if r == 0
          then ok (false, handle)
              (record v {
                block = update v.block handle (record f {
                  cur_cluster = i.start_cluster;
                  filesize = i.filesize;
                  found = true;
                });
              })
          else ok (true, handle) v
    ]

-- FsCloseFile.
unfoldable pub close_file : (handle : ℕ) → Cmd Volume Bool
close_file handle v = elim (free_non_cached_memory handle v.pool) [
  | ok u pool ↦ ok true (record v { pool = pool })
  | fault ↦ fault
  | hung ↦ hung
]

abbrev pub sizeof_file_control_block : ℕ
sizeof_file_control_block = 536

-- The block of a file before it is looked for.
unfoldable pub fresh_block : (filename attribute : ℕ) → FileControlBlock → FileControlBlock
fresh_block filename attribute f = record f {
  found = false;
  pt_filename = filename;
  attribute = attribute;
  bytesread = 0;
}

module _ (read_sector : ℕ → Option (ℕ → ℕ)) where
  -- The end of FsOpenFile, behind the search.
  unfoldable pub load_first : (handle : ℕ) → Cmd Volume ℕ
  load_first handle v =
      let f = v.block handle in
      let failed = (close_file handle >> pure 0) v in
      if not f.found then failed else elim (read_sector (u16 (f.cur_cluster + cluster_offset))) [
        | none ↦ failed
        | some sector ↦
            ok handle (record v { block = update v.block handle (record f { buffer = sector }) })
      ]

  -- FsOpenFile from the allocation on; the block holds what was in its memory.
  unfoldable pub open_named : (fuel info filename attribute : ℕ) → Cmd Volume ℕ
  open_named fuel info filename attribute v =
      elim (allocate_non_cached_memory sizeof_file_control_block v.pool) [
        | ok handle pool ↦
            if handle == 0
            then ok 0 (record v { pool = pool })
            else (get_file_list (of_callback fuel) info handle >> load_first handle) (record v {
              pool = pool;
              block = update v.block handle (fresh_block filename attribute (v.block handle));
            })
        | fault ↦ fault
        | hung ↦ hung
      ]

  -- FsOpenFile. The fuel is for the loops over the name that is asked for, and over the names in
  -- the directory.
  unfoldable pub open_file : (length_fuel fuel info filename attribute : ℕ) → Cmd Volume ℕ
  open_file length_fuel fuel info filename attribute v =
      if filename == 0 then ok 0 v else elim (strlen length_fuel v.memory filename 0) [
        | none ↦ hung
        | some n ↦ if n == 0 then ok 0 v else elim (strupr length_fuel v.memory filename) [
          | none ↦ hung
          | some memory ↦ open_named fuel info filename attribute (record v { memory = memory })
        ]
      ]
