-- ===== src/Syscall/Serviced.antt =====
-- What the system calls come to.
use mylysos.Base.{
  ℕ, ◌+◌, ◌*◌, ◌/◌, ◌^◌, ◌<◌, ◌≡◌, ◌≢◌, ◌∙◌, ap, Option, List, true, false, update_self, arith, Run,
  ok, Bool,
}
use mylysos.Hal.{kernel_cs}
use mylysos.Process.Schedule.{is_runnable}
use mylysos.Screen.{print_text}
use mylysos.Syscall.{
  SyscallType, syscall_terminated, syscall_print_text, System, CallgateDesc, syscall_gate,
  setup_sys_callgate,
}

-- The calls that the switch knows.
unfoldable pub is_served : SyscallType → Bool
is_served syscall_terminated = true
is_served syscall_print_text = true
is_served c = false

-- What a call leaves: the end of a program makes its thread one that does not run again, a text is
-- on the screen, and any other call changes nothing.
pub data Serviced (text : Option (List ℕ)) (s : System)
    : SyscallType → Run System (Unit {0}) → Type 0 where
  ended :
      (s' : System)
      → is_runnable (s'.kernel.thread s.kernel.current_thread).status ≡ false
      → ((t : ℕ) → t ≢ s.kernel.current_thread → s'.kernel.thread t ≡ s.kernel.thread t)
      → s'.screen ≡ s.screen
      → Serviced text s syscall_terminated (ok tt s')
  printed :
      Serviced text s syscall_print_text
        (ok tt (record s { screen = (print_text text s.screen).1 }))
  ignored : (c : SyscallType) → is_served c ≡ false → Serviced text s c (ok tt s)

-- The call gate leads to the service routine, in the code segment of the kernel.
pub setup_sys_callgate-offset :
    (manager : ℕ) (s : System)
    → manager < 2 ^ 32
    → let g = (setup_sys_callgate manager s).gate (syscall_gate / 8) in
      (g.offset_1 + g.offset_2 * 2 ^ 8 + g.offset_3 * 2 ^ 16 + g.offset_4 * 2 ^ 24 ≡ manager)
      × (g.selector ≡ kernel_cs)
unfolding setup_sys_callgate
setup_sys_callgate-offset manager s small =
    let g : (setup_sys_callgate manager s).gate (syscall_gate / 8) ≡ _ =
      update_self s.gate (syscall_gate / 8) _ in
    (
      ap
            (λ (x : CallgateDesc).
              x.offset_1 + x.offset_2 * 2 ^ 8 + x.offset_3 * 2 ^ 16 + x.offset_4 * 2 ^ 24)
            g
          ∙ omega (arith, small),
      ap (λ (x : CallgateDesc). x.selector) g,
    )
