-- ===== src/Hal/Interrupts.antt =====
-- The interrupt handlers of mylysos/hal.c and the table through which the processor reaches them.
-- A handler is what it does between saving and restoring the registers; the addresses of the
-- handlers are a parameter. A message that a handler prints is named by the handler.
use mylysos.Base.{ℕ, List, [], ◌∷◌}

pub data Action : Type 0 where
  prints_name : Action
  prints_stack : Action
  fills_screen : Action
  halts : Action
  handles_keyboard : Action
  handles_floppy : Action
  acknowledges : (port : ℕ) → Action

-- The exceptions 0 to 9, and what their handlers do.
pub data LowException : Type 0 where
  divide_by_zero : LowException
  debug_exception : LowException
  nmi : LowException
  breakpoint : LowException
  into : LowException
  bounds : LowException
  invalid_opcode : LowException
  device_not_available : LowException
  double_fault : LowException
  coprocessor_overrun : LowException

-- Halp_ECT_DivideByZero to Halp_ECT_CoprocessorOverrun.
unfoldable pub low_exception_actions : LowException → List Action
low_exception_actions divide_by_zero = prints_name ∷ []
low_exception_actions debug_exception = prints_name ∷ []
low_exception_actions nmi = prints_name ∷ []
low_exception_actions breakpoint = prints_stack ∷ halts ∷ []
low_exception_actions into = prints_name ∷ []
low_exception_actions bounds = prints_name ∷ []
low_exception_actions invalid_opcode = prints_name ∷ halts ∷ []
low_exception_actions device_not_available = prints_name ∷ []
low_exception_actions double_fault = fills_screen ∷ halts ∷ []
low_exception_actions coprocessor_overrun = prints_name ∷ []

-- The exceptions from 10 on.
pub data HighException : Type 0 where
  invalid_tss : HighException
  segment_not_present : HighException
  stack_exception : HighException
  general_protection : HighException
  page_fault : HighException
  floating_point_error : HighException
  alignment_check : HighException
  machine_check : HighException

-- Halp_ECT_InvalidTSS to Halp_ECT_MachineCheck.
unfoldable pub high_exception_actions : HighException → List Action
high_exception_actions invalid_tss = prints_name ∷ []
high_exception_actions segment_not_present = prints_name ∷ []
high_exception_actions stack_exception = prints_name ∷ []
high_exception_actions general_protection = prints_name ∷ prints_stack ∷ halts ∷ []
high_exception_actions page_fault = prints_name ∷ []
high_exception_actions floating_point_error = prints_name ∷ []
high_exception_actions alignment_check = prints_name ∷ []
high_exception_actions machine_check = prints_name ∷ []

-- The interrupt requests of the first controller.
pub data MasterIrq : Type 0 where
  keyboard : MasterIrq
  req_from_slave_8259 : MasterIrq
  com2 : MasterIrq
  com1 : MasterIrq
  lpt2 : MasterIrq
  floppy_disk : MasterIrq
  lpt1 : MasterIrq

-- Halp_IRQ_Keyboard to Halp_IRQ_LPT1.
unfoldable pub master_irq_actions : MasterIrq → List Action
master_irq_actions keyboard = handles_keyboard ∷ acknowledges 0x20 ∷ []
master_irq_actions req_from_slave_8259 = prints_name ∷ acknowledges 0x20 ∷ []
master_irq_actions com2 = prints_name ∷ acknowledges 0x20 ∷ []
master_irq_actions com1 = prints_name ∷ acknowledges 0x20 ∷ []
master_irq_actions lpt2 = prints_name ∷ acknowledges 0x20 ∷ []
master_irq_actions floppy_disk = handles_floppy ∷ acknowledges 0x20 ∷ []
master_irq_actions lpt1 = prints_name ∷ acknowledges 0x20 ∷ []

-- The interrupt requests of the second controller.
pub data SlaveIrq : Type 0 where
  cmos_clock : SlaveIrq
  vga : SlaveIrq
  mouse : SlaveIrq
  math_coprocessor : SlaveIrq
  hard_drive : SlaveIrq

-- Halp_IRQ_CMOSClock to Halp_IRQ_HardDrive.
unfoldable pub slave_irq_actions : SlaveIrq → List Action
slave_irq_actions cmos_clock = prints_name ∷ acknowledges 0x20 ∷ acknowledges 0xa0 ∷ []
slave_irq_actions vga = prints_name ∷ acknowledges 0x20 ∷ acknowledges 0xa0 ∷ []
slave_irq_actions mouse = prints_name ∷ acknowledges 0x20 ∷ acknowledges 0xa0 ∷ []
slave_irq_actions math_coprocessor = prints_name ∷ acknowledges 0x20 ∷ acknowledges 0xa0 ∷ []
slave_irq_actions hard_drive = prints_name ∷ acknowledges 0x20 ∷ acknowledges 0xa0 ∷ []

pub data Routine : Type 0 where
  low : LowException → Routine
  high : HighException → Routine
  master : MasterIrq → Routine
  slave : SlaveIrq → Routine

unfoldable pub actions : Routine → List Action
actions (low r) = low_exception_actions r
actions (high r) = high_exception_actions r
actions (master r) = master_irq_actions r
actions (slave r) = slave_irq_actions r
