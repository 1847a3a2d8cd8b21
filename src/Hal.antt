-- ===== src/Hal.antt =====
-- The task state segments and the descriptor table of mylysos/hal.c and mylysos/sys_desc.h.
-- Memory words are named by their address. What PUSHFD reads is a parameter, as are the address
-- of SysGetSyscallStackPtr and the result of SysGetSyscallStackSize, which hal.c declares to be
-- a pointer to 4-byte words.
pub mod Laws
pub mod Interrupts
pub mod Idt
pub mod Devices
pub mod A20
mod Tests
use mylysos.Base.{
  ℕ, ◌+◌, ◌-◌, ◌*◌, ◌/◌, ◌%◌, ◌^◌, Bool, bit_and, bit_or, if◌then◌else◌, update, u8, u32, sub32,
}

abbrev pub kernel_cs : ℕ
kernel_cs = 0x08

abbrev pub kernel_ds : ℕ
kernel_ds = 0x10

abbrev pub user_cs : ℕ
user_cs = 0x1b

abbrev pub user_ds : ℕ
user_ds = 0x23

abbrev pub task_sw_seg : ℕ
task_sw_seg = 0x28

abbrev pub init_tss_seg : ℕ
init_tss_seg = 0x30

abbrev pub tmr_tss_seg : ℕ
tmr_tss_seg = 0x38

abbrev pub soft_ts_tss_seg : ℕ
soft_ts_tss_seg = 0x40

-- sizeof(TSS_32).
abbrev pub sizeof_tss : ℕ
sizeof_tss = 104

pub record SegmentDesc : Type 0 where
  pub limit_1 : ℕ
  pub limit_2 : ℕ
  pub base_1 : ℕ
  pub base_2 : ℕ
  pub base_3 : ℕ
  pub kind : ℕ
  pub glimit_3 : ℕ
  pub base_4 : ℕ

-- The fields that the code writes; HalSetupTSS sets the others to 0.
pub record Tss32 : Type 0 where
  pub prev_task_link : ℕ
  pub esp0 : ℕ
  pub ss0 : ℕ
  pub eip : ℕ
  pub eflags : ℕ
  pub esp : ℕ
  pub es : ℕ
  pub cs : ℕ
  pub ss : ℕ
  pub ds : ℕ
  pub fs : ℕ
  pub gs : ℕ

-- A descriptor for the segment at `address`. A mask and a shift to the right are a quotient and a
-- remainder.
abbrev pub tss_desc : (address size kind : ℕ) → SegmentDesc → SegmentDesc
tss_desc address size kind d = record d {
  limit_1 = u8 size;
  limit_2 = u8 (size / 2 ^ 8);
  glimit_3 = size / 2 ^ 16 % 16;
  base_1 = u8 address;
  base_2 = u8 (address / 2 ^ 8);
  base_3 = u8 (address / 2 ^ 16);
  base_4 = u8 (address / 2 ^ 24);
  kind = kind;
}

-- HalWriteTssIntoGdt.
unfoldable pub write_tss_into_gdt :
    (address size number : ℕ) → (busy : Bool) → (ℕ → SegmentDesc) → ℕ → SegmentDesc
write_tss_into_gdt address size number busy gdt =
    update gdt (number / 8) (tss_desc address size (if busy then 0x8b else 0x89) (gdt (number / 8)))

-- HalChangeTssBusyBit.
unfoldable pub change_tss_busy_bit :
    (segment : ℕ) → (set_bit : Bool) → (ℕ → SegmentDesc) → ℕ → SegmentDesc
change_tss_busy_bit segment set_bit gdt =
    let d = gdt (segment / 8) in
    update gdt (segment / 8)
      (record d { kind = if set_bit then bit_or d.kind 0x02 else bit_and d.kind 0xfd })

-- HalSetupTaskLink.
unfoldable pub setup_task_link : Tss32 → (task_link : ℕ) → Tss32
setup_task_link t task_link = record t {
  eflags = bit_or t.eflags 0x4000;
  prev_task_link = task_link;
}

-- The part of HalSetupTaskSwitchingEnv on the segment: the words that IRETD takes are pushed.
unfoldable pub push_frame : Tss32 → (ℕ → ℕ) → Tss32 × (ℕ → ℕ)
push_frame t memory =
    let stack = sub32 t.esp 4 in
    let memory = update memory stack t.eflags in
    let stack = sub32 stack 4 in
    let memory = update memory stack t.cs in
    let stack = sub32 stack 4 in
    let memory = update memory stack t.eip in (record t { esp = stack }, memory)

-- The segment and the memory after HalSetupTSS, before its HalChangeTssBusyBit. The last two
-- summands of `esp0` come from arithmetic on a pointer to 4-byte words.
unfoldable pub setup_tss :
    (flags syscall_stack_ptr syscall_stack_size : ℕ)
    → (is_kernel : Bool) → (entry_point stack_base stack_size : ℕ) → (ℕ → ℕ)
    → Tss32 × (ℕ → ℕ)
setup_tss flags syscall_stack_ptr syscall_stack_size is_kernel entry_point stack_base stack_size =
    let ds = if is_kernel then kernel_ds else user_ds in
    push_frame (record {
      prev_task_link = 0;
      esp0 = sub32 (u32 (syscall_stack_size + 4 * syscall_stack_ptr)) 4;
      ss0 = kernel_ds;
      eip = entry_point;
      eflags = bit_or flags 0x0200;
      esp = sub32 (u32 (stack_base + stack_size)) 1;
      es = ds;
      cs = if is_kernel then kernel_cs else user_cs;
      ss = ds;
      ds = ds;
      fs = ds;
      gs = ds;
    })
