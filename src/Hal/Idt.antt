-- ===== src/Hal/Idt.antt =====
-- The interrupt descriptor table of mylysos/hal.c.
pub mod Actions
pub mod Laws
use mylysos.Base.{
  ℕ, ◌+◌, ◌*◌, ◌/◌, ◌%◌, ◌^◌, List, [], ◌∷◌, ◌++◌, Bool, true, false, bit_and, ◌==◌, if◌then◌else◌,
  update, u16,
}
use mylysos.Hal.{kernel_cs, tmr_tss_seg, soft_ts_tss_seg}
use mylysos.Hal.Interrupts.{
  Routine, low, high, master, slave, LowException, HighException, MasterIrq, SlaveIrq,
}
use mylysos.Hal.Interrupts.{
  divide_by_zero, debug_exception, nmi, breakpoint, into, bounds, invalid_opcode,
  device_not_available, double_fault, coprocessor_overrun, invalid_tss, segment_not_present,
  stack_exception, general_protection, page_fault, floating_point_error, alignment_check,
  machine_check, keyboard, req_from_slave_8259, com2, com1, lpt2, floppy_disk, lpt1, cmos_clock,
  vga, mouse, math_coprocessor, hard_drive,
}

-- IDTC_PRESENT | IDTC_32BIT | IDTC_INTGATE | IDTC_DPL0.
abbrev pub interrupt_gate : ℕ
interrupt_gate = 0x8e00

-- IDTC_PRESENT | IDTC_TASKGATE | IDTC_DPL0.
abbrev pub task_gate : ℕ
task_gate = 0x8500

abbrev pub idtc_taskgate : ℕ
idtc_taskgate = 0x0500

-- INT_HANDLER.
pub record IntHandler : Type 0 where
  pub number : ℕ
  pub offset : ℕ
  pub kind : ℕ

-- IDT_GATE.
pub record IdtGate : Type 0 where
  pub offset_low : ℕ
  pub selector : ℕ
  pub kind : ℕ
  pub offset_high : ℕ

abbrev pub interrupt : (number offset : ℕ) → IntHandler
interrupt number offset = record { number = number; offset = offset; kind = interrupt_gate }

abbrev pub task : (number selector : ℕ) → IntHandler
task number selector = record { number = number; offset = selector; kind = task_gate }

-- m_IntHandlers, without its last entry.
unfoldable pub installed_handlers : (address : Routine → ℕ) → List IntHandler
installed_handlers address =
    interrupt 0x00 (address (low divide_by_zero))
    ∷ interrupt 0x01 (address (low debug_exception))
    ∷ interrupt 0x02 (address (low nmi))
    ∷ interrupt 0x03 (address (low breakpoint))
    ∷ interrupt 0x04 (address (low into))
    ∷ interrupt 0x05 (address (low bounds))
    ∷ interrupt 0x06 (address (low invalid_opcode))
    ∷ interrupt 0x07 (address (low device_not_available))
    ∷ interrupt 0x08 (address (low double_fault))
    ∷ interrupt 0x09 (address (low coprocessor_overrun))
    ∷ interrupt 0x0a (address (high invalid_tss))
    ∷ interrupt 0x0b (address (high segment_not_present))
    ∷ interrupt 0x0c (address (high stack_exception))
    ∷ interrupt 0x0d (address (high general_protection))
    ∷ interrupt 0x0e (address (high page_fault))
    ∷ interrupt 0x10 (address (high floating_point_error))
    ∷ interrupt 0x11 (address (high alignment_check))
    ∷ interrupt 0x12 (address (high machine_check))
    ∷ interrupt 0x21 (address (master keyboard))
    ∷ interrupt 0x22 (address (master req_from_slave_8259))
    ∷ interrupt 0x23 (address (master com2))
    ∷ interrupt 0x24 (address (master com1))
    ∷ interrupt 0x25 (address (master lpt2))
    ∷ interrupt 0x26 (address (master floppy_disk))
    ∷ interrupt 0x27 (address (master lpt1))
    ∷ interrupt 0x28 (address (slave cmos_clock))
    ∷ interrupt 0x29 (address (slave vga))
    ∷ interrupt 0x2c (address (slave mouse))
    ∷ interrupt 0x2d (address (slave math_coprocessor))
    ∷ interrupt 0x2e (address (slave hard_drive))
    ∷ task 0x20 tmr_tss_seg
    ∷ task 0x30 soft_ts_tss_seg
    ∷ []

unfoldable pub int_handlers : (address : Routine → ℕ) → List IntHandler
int_handlers address =
    installed_handlers address ++ record { number = 0; offset = 0; kind = 0 } ∷ []

-- The body of the loop of HalpStartIntService.
unfoldable pub set_gate : IntHandler → IdtGate → IdtGate
set_gate h g =
    if bit_and h.kind idtc_taskgate == idtc_taskgate
    then record g { selector = u16 h.offset; kind = h.kind }
    else record {
      selector = kernel_cs;
      kind = h.kind;
      offset_high = u16 (h.offset / 2 ^ 16);
      offset_low = u16 h.offset;
    }

-- The loop. The entry with the offset 0 ends it before the end of the table.
unfoldable pub fill_idt : List IntHandler → (ℕ → IdtGate) → ℕ → IdtGate
fill_idt [] idt = idt
fill_idt (h ∷ hs) idt =
    let rest = fill_idt hs (update idt h.number (set_gate h (idt h.number))) in
    if h.offset == 0 then idt else rest

abbrev pub zero_gate : IdtGate
zero_gate = record { offset_low = 0; selector = 0; kind = 0; offset_high = 0 }

-- The table that HalpStartIntService leaves.
unfoldable pub start_int_service : (address : Routine → ℕ) → ℕ → IdtGate
start_int_service address = fill_idt (int_handlers address) (λ i. zero_gate)
