-- ===== src/Shell/Commands.antt =====
-- The routines of the commands of mylysos/hshell.c that keep a state or compute one: TOGGLE, DIR and
-- FREE. What they print is a list of the arguments of CrtPrintf.
pub mod Listed
mod Tests
use mylysos.Base.{
  ℕ, ◌+◌, ◌-◌, ◌*◌, ◌/◌, ◌%◌, ◌^◌, Bool, true, false, List, [], ◌∷◌, ltb, ◌==◌, if◌then◌else◌, not,
  u16, u32, sub32, bit_and, Run, ok, fault, hung, Cmd, pure, ◌>>=◌, ◌>>◌,
}
use mylysos.Memory.{MemBlkManager, get_used_memory_blocks, get_memory_block_size}
use mylysos.Process.{Kernel}
use mylysos.Process.Start.{show_ts_watchdog_clock}
use mylysos.FileSystem.Directory.{FileInfo, Volume, get_file_list}

-- Hshp_CMD_toggle; `show` is its static variable, which begins with TRUE.
unfoldable pub hshp_cmd_toggle : (show : Bool) → Cmd Kernel (Bool × Bool)
hshp_cmd_toggle show = let show = not show in show_ts_watchdog_clock show >>= λ r. pure (r, show)

-- DIR_CMD_CONTEXT.
pub record DirCmdContext : Type 0 where
  pub file_cnt : ℕ
  pub dir_cnt : ℕ
  pub total_file_size : ℕ

-- A line that Hshp_dir_callback prints; the name is what then stands at its address.
pub record DirLine : Type 0 where
  pub year : ℕ
  pub month : ℕ
  pub day : ℕ
  pub hour : ℕ
  pub minute : ℕ
  pub is_pm : Bool
  pub filesize : ℕ
  pub is_dir : Bool
  pub memory : ℕ → ℕ
  pub filename : ℕ

abbrev pub file_attr_directory : ℕ
file_attr_directory = 0x10

unfoldable pub is_directory : FileInfo → Bool
is_directory i = not (bit_and i.attribute file_attr_directory == 0)

-- The date and the time of a file, with the hour on the twelve-hour clock.
unfoldable pub dir_line : FileInfo → (memory : ℕ → ℕ) → DirLine
dir_line i memory =
    let hour = i.time / 2 ^ 11 % 32 in
    record {
      year = u16 (i.date / 2 ^ 9 + 1980);
      month = i.date / 2 ^ 5 % 16;
      day = i.date % 32;
      hour = if ltb 12 hour then hour - 12 else hour;
      minute = i.time / 2 ^ 5 % 64;
      is_pm = ltb 12 hour;
      filesize = i.filesize;
      is_dir = is_directory i;
      memory = memory;
      filename = i.filename;
    }

unfoldable pub counted : FileInfo → DirCmdContext → DirCmdContext
counted i c =
    let c =
      if is_directory i
      then record c { dir_cnt = u16 (c.dir_cnt + 1) }
      else record c { file_cnt = u16 (c.file_cnt + 1) } in
    record c { total_file_size = u32 (c.total_file_size + i.filesize) }

-- Hshp_dir_callback; its context, and the lines that are printed, the last one first.
unfoldable pub dir_callback :
    FileInfo → DirCmdContext × List DirLine → Cmd Volume (Bool × (DirCmdContext × List DirLine))
dir_callback i (c, lines) v = ok (true, (counted i c, dir_line i v.memory ∷ lines)) v

-- Hshp_CMD_dir: the totals that it prints, and the lines of the callback.
unfoldable pub hshp_cmd_dir : (info : ℕ) → Cmd Volume (DirCmdContext × List DirLine)
hshp_cmd_dir info =
    get_file_list dir_callback info (record { file_cnt = 0; dir_cnt = 0; total_file_size = 0 }, [])

-- Hshp_CMD_free: the total, the bytes in use and what is available. GetTotalMemoryBlocks returns
-- m_MemSize, which is a number of bytes.
unfoldable pub hshp_cmd_free : (mem_size : ℕ) → MemBlkManager → ℕ × ℕ × ℕ
hshp_cmd_free mem_size m =
    let used_bytes = u32 (get_used_memory_blocks m * get_memory_block_size) in
    (mem_size, used_bytes, sub32 mem_size used_bytes)
