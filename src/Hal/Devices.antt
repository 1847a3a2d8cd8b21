-- ===== src/Hal/Devices.antt =====
-- The writes to ports with which mylysos/hal.c sets up the interrupt controllers and the timer, in
-- their order, and the test of the A20 line.
use mylysos.Base.{
  ℕ, ◌/◌, ◌^◌, List, [], ◌∷◌, Bool, true, false, bit_or, ◌==◌, if◌then◌else◌, Option, none, some,
  update, u8, u16,
}

-- HalpInitPIC.
unfoldable pub init_pic : List (ℕ × ℕ)
init_pic =
    (0x20, 0x11)
    ∷ (0x21, 0x20)
    ∷ (0x21, 0x04)
    ∷ (0x21, 0x01)
    ∷ (0x21, 0x00)
    ∷ (0xa0, 0x11)
    ∷ (0xa1, 0x28)
    ∷ (0xa1, 0x02)
    ∷ (0xa1, 0x01)
    ∷ (0xa1, 0x00)
    ∷ []

-- HalpInitSysTimer; `none` is the division by 0.
unfoldable pub init_sys_timer : (timeout_per_second : ℕ) → Option (List (ℕ × ℕ))
init_sys_timer timeout_per_second =
    if timeout_per_second == 0
    then none
    else let timeout = u16 (1193180 / timeout_per_second) in
      some ((0x43, 0x34) ∷ (0x40, u8 timeout) ∷ (0x40, u8 (timeout / 2 ^ 8)) ∷ [])

-- The commands with which HalpEnableA20 turns the line on, when the controller's output port holds
-- `flag`.
unfoldable pub enable_a20_writes : (flag : ℕ) → List (ℕ × ℕ)
enable_a20_writes flag = (0x64, 0xd0) ∷ (0x64, 0xd1) ∷ (0x60, bit_or flag 0x02) ∷ []

-- The test at the end of HalpEnableA20, on words of the memory behind a map `line` from addresses
-- to what stands on the bus: the result and the memory.
unfoldable pub test_a20 : (line : ℕ → ℕ) → (ℕ → ℕ) → Bool × (ℕ → ℕ)
test_a20 line m =
    let buf_1 = m (line 0x00000000) in
    let buf_2 = m (line 0x00100000) in
    let m = update m (line 0x00000000) 0xff00ccaa in
    let m = update m (line 0x00100000) 0x22cc11dd in
    if m (line 0x00000000) == m (line 0x00100000)
    then (false, update m (line 0x00000000) buf_1)
    else (true, update (update m (line 0x00000000) buf_1) (line 0x00100000) buf_2)
