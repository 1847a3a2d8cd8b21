-- ===== src/Hal/Idt/Actions.antt =====
-- The vector of each interrupt, and that its handler acknowledges it where it came from.
use mylysos.Base.{ℕ, List, [], ◌∷◌}
use mylysos.Hal.Interrupts.{
  Routine, low, high, master, slave, Action, acknowledges, prints_name, prints_stack, fills_screen,
  halts, handles_keyboard, handles_floppy,
}
use mylysos.Hal.Interrupts.{
  divide_by_zero, debug_exception, nmi, breakpoint, into, bounds, invalid_opcode,
  device_not_available, double_fault, coprocessor_overrun, invalid_tss, segment_not_present,
  stack_exception, general_protection, page_fault, floating_point_error, alignment_check,
  machine_check, keyboard, req_from_slave_8259, com2, com1, lpt2, floppy_disk, lpt1, cmos_clock,
  vga, mouse, math_coprocessor, hard_drive,
}

-- The vector of each routine.
unfoldable pub number_of : Routine → ℕ
number_of (low divide_by_zero) = 0x00
number_of (low debug_exception) = 0x01
number_of (low nmi) = 0x02
number_of (low breakpoint) = 0x03
number_of (low into) = 0x04
number_of (low bounds) = 0x05
number_of (low invalid_opcode) = 0x06
number_of (low device_not_available) = 0x07
number_of (low double_fault) = 0x08
number_of (low coprocessor_overrun) = 0x09
number_of (high invalid_tss) = 0x0a
number_of (high segment_not_present) = 0x0b
number_of (high stack_exception) = 0x0c
number_of (high general_protection) = 0x0d
number_of (high page_fault) = 0x0e
number_of (high floating_point_error) = 0x10
number_of (high alignment_check) = 0x11
number_of (high machine_check) = 0x12
number_of (master keyboard) = 0x21
number_of (master req_from_slave_8259) = 0x22
number_of (master com2) = 0x23
number_of (master com1) = 0x24
number_of (master lpt2) = 0x25
number_of (master floppy_disk) = 0x26
number_of (master lpt1) = 0x27
number_of (slave cmos_clock) = 0x28
number_of (slave vga) = 0x29
number_of (slave mouse) = 0x2c
number_of (slave math_coprocessor) = 0x2d
number_of (slave hard_drive) = 0x2e

-- The ports at which a handler acknowledges its interrupt.
pub acknowledged : List Action → List ℕ
acknowledged [] = []
acknowledged (acknowledges port ∷ rest) = port ∷ acknowledged rest
acknowledged (prints_name ∷ rest) = acknowledged rest
acknowledged (prints_stack ∷ rest) = acknowledged rest
acknowledged (fills_screen ∷ rest) = acknowledged rest
acknowledged (halts ∷ rest) = acknowledged rest
acknowledged (handles_keyboard ∷ rest) = acknowledged rest
acknowledged (handles_floppy ∷ rest) = acknowledged rest
