-- ===== src/Syscall.antt =====
-- The system calls, mylysos/syscall.c: the call gate, the stack, and what the calls do. The gates are
-- the descriptors of m_GdtTable, read as CALLGATE_DESC.
pub mod Serviced
mod Tests
use mylysos.Base.{
  ℕ, ◌*◌, ◌/◌, ◌%◌, ◌^◌, Bool, true, false, Option, none, some, List, ◌==◌, if◌then◌else◌, update,
  Run, ok, fault, hung, Cmd,
}
use mylysos.Hal.{kernel_cs}
use mylysos.Process.{Kernel, terminated, allocate, set_thread_status}
use mylysos.Screen.{Screen, print_text}

pub record CallgateDesc : Type 0 where
  pub offset_1 : ℕ
  pub offset_2 : ℕ
  pub selector : ℕ
  pub count : ℕ
  pub kind : ℕ
  pub offset_3 : ℕ
  pub offset_4 : ℕ

-- SYSCALL_TYPES.
pub data SyscallType : Type 0 where
  syscall_terminated : SyscallType
  syscall_delay : SyscallType
  syscall_get_tickcount : SyscallType
  syscall_show_tswatchdog : SyscallType
  syscall_hide_tswatchdog : SyscallType
  syscall_clear_screen : SyscallType
  syscall_print_text : SyscallType
  syscall_print_text_xy : SyscallType
  syscall_print_text_attr : SyscallType
  syscall_print_text_xy_attr : SyscallType
  syscall_has_key : SyscallType
  syscall_get_keydata : SyscallType
  syscall_set_video_mode : SyscallType
  syscall_get_current_video_mode : SyscallType
  syscall_load_bitmap : SyscallType
  syscall_get_palette_handle : SyscallType
  syscall_get_bitmap_info : SyscallType
  syscall_bitblt : SyscallType
  syscall_close_bitmap_handle : SyscallType

-- What the functions here share.
pub record System : Type 0 where
  pub kernel : Kernel
  pub screen : Screen
  pub gate : ℕ → CallgateDesc
  pub syscall_stack : ℕ

abbrev pub syscall_gate : ℕ
syscall_gate = 0x48

abbrev pub syscall_stack_size : ℕ
syscall_stack_size = 64 * 1024

-- SyspSetupSysCallgate, for the address of Sysp_SERVICE_CALL_MANAGER.
unfoldable pub setup_sys_callgate : (manager : ℕ) → System → System
setup_sys_callgate manager s = record s {
  gate = update s.gate (syscall_gate / 8) (record {
    offset_1 = manager % 2 ^ 8;
    offset_2 = manager / 2 ^ 8 % 2 ^ 8;
    selector = kernel_cs;
    count = 1;
    kind = 0xec;
    offset_3 = manager / 2 ^ 16 % 2 ^ 8;
    offset_4 = manager / 2 ^ 24 % 2 ^ 8;
  });
}

-- SysInitializeSyscall.
unfoldable pub initialize_syscall : (manager : ℕ) → Cmd System Bool
initialize_syscall manager s =
    let s = setup_sys_callgate manager s in
    elim (allocate syscall_stack_size s.kernel) [
      | ok stack k ↦
          let s = record s { kernel = k; syscall_stack = stack } in
          if stack == 0 then ok false s else ok true s
      | fault ↦ fault
      | hung ↦ hung
    ]

-- The switch of Sysp_SERVICE_CALL_MANAGER, up to HalTaskSwitch; `text` is what pt_text points to.
unfoldable pub service_call_manager : SyscallType → (text : Option (List ℕ)) → Cmd System (Unit {0})
service_call_manager syscall_terminated text s =
    elim (set_thread_status s.kernel.current_thread terminated s.kernel) [
      | ok r k ↦ ok tt (record s { kernel = k })
      | fault ↦ fault
      | hung ↦ hung
    ]
service_call_manager syscall_print_text text s =
    ok tt (record s { screen = (print_text text s.screen).1 })
service_call_manager call text s = ok tt s
