-- ===== src/Hal/Idt/Laws.antt =====
-- Each interrupt reaches its handler.
use mylysos.Base.{
  ℕ, ◌+◌, ◌*◌, ◌^◌, ◌<◌, ◌≡◌, ◌≢◌, refl, sym, ap, ◌∙◌, List, [], ◌∷◌, ◌++◌, true, false, ◌==◌,
  if◌then◌else◌, arith, update, update_self, update_ne,
}
use native.Mathlib.Decide.{ℕ_discrete}
use mylysos.Hal.{kernel_cs}
use mylysos.Hal.Interrupts.{Routine, low, high, master, slave}
use mylysos.Hal.Interrupts.{
  divide_by_zero, debug_exception, nmi, breakpoint, into, bounds, invalid_opcode,
  device_not_available, double_fault, coprocessor_overrun, invalid_tss, segment_not_present,
  stack_exception, general_protection, page_fault, floating_point_error, alignment_check,
  machine_check, keyboard, req_from_slave_8259, com2, com1, lpt2, floppy_disk, lpt1, cmos_clock,
  vga, mouse, math_coprocessor, hard_drive,
}
use mylysos.Hal.Idt.{
  IntHandler, IdtGate, set_gate, fill_idt, zero_gate, installed_handlers, int_handlers,
  start_int_service, interrupt, interrupt_gate,
}
use mylysos.Hal.Idt.Actions.{number_of}

-- The entries that end the table early.
Nonzero : List IntHandler → Type 0
Nonzero [] = Unit
Nonzero (h ∷ hs) = (h.offset ≢ 0) × Nonzero hs

-- What the writes to one gate amount to.
last_gate : List IntHandler → ℕ → IdtGate → IdtGate
last_gate [] n g = g
last_gate (h ∷ hs) n g = last_gate hs n (if h.number == n then set_gate h g else g)

fill_idt-next :
    (h : IntHandler) (hs : List IntHandler) (idt : ℕ → IdtGate)
    → h.offset ≢ 0
    → fill_idt (h ∷ hs) idt ≡ fill_idt hs (update idt h.number (set_gate h (idt h.number)))
unfolding fill_idt
fill_idt-next h hs idt ne = ground (arith, ne)

fill_idt-end :
    (idt : ℕ → IdtGate) → fill_idt (record { number = 0; offset = 0; kind = 0 } ∷ []) idt ≡ idt
unfolding fill_idt
fill_idt-end idt = refl

updated :
    (h : IntHandler) (idt : ℕ → IdtGate) (n : ℕ)
    → update idt h.number (set_gate h (idt h.number)) n
      ≡ (if h.number == n then set_gate h (idt n) else idt n)
updated h idt n = elim (ℕ_discrete n h.number) [
  | yes e ↦
      let same : (h.number == n) ≡ true = ground (arith, e) in
      ap (update idt h.number (set_gate h (idt h.number))) e
      ∙ update_self idt h.number _
      ∙ rw same (ap (λ m. set_gate h (idt m)) (sym e))
  | no ne ↦
      let other : (h.number == n) ≡ false = ground (arith, ne) in
      update_ne idt h.number _ n ne ∙ rw other refl
]

fill_idt-last_gate :
    (hs : List IntHandler) (idt : ℕ → IdtGate) (n : ℕ)
    → Nonzero hs
    → fill_idt (hs ++ record { number = 0; offset = 0; kind = 0 } ∷ []) idt n
      ≡ last_gate hs n (idt n)
unfolding Nonzero last_gate
fill_idt-last_gate [] idt n z = ap (λ f. f n) (fill_idt-end idt)
fill_idt-last_gate (h ∷ hs) idt n (ne, z) =
    ap (λ f. f n) (fill_idt-next h (hs ++ record { number = 0; offset = 0; kind = 0 } ∷ []) idt ne)
    ∙ fill_idt-last_gate hs (update idt h.number (set_gate h (idt h.number))) n z
    ∙ ap (last_gate hs n) (updated h idt n)

module _ (address : Routine → ℕ) where
  installed-Nonzero : ((r : Routine) → address r ≢ 0) → Nonzero (installed_handlers address)
  unfolding installed_handlers Nonzero
  installed-Nonzero h = (
    h (low divide_by_zero),
    (
      h (low debug_exception),
      (
        h (low nmi),
        (
          h (low breakpoint),
          (
            h (low into),
            (
              h (low bounds),
              (
                h (low invalid_opcode),
                (
                  h (low device_not_available),
                  (
                    h (low double_fault),
                    (
                      h (low coprocessor_overrun),
                      (
                        h (high invalid_tss),
                        (
                          h (high segment_not_present),
                          (
                            h (high stack_exception),
                            (
                              h (high general_protection),
                              (
                                h (high page_fault),
                                (
                                  h (high floating_point_error),
                                  (
                                    h (high alignment_check),
                                    (
                                      h (high machine_check),
                                      (
                                        h (master keyboard),
                                        (
                                          h (master req_from_slave_8259),
                                          (
                                            h (master com2),
                                            (
                                              h (master com1),
                                              (
                                                h (master lpt2),
                                                (
                                                  h (master floppy_disk),
                                                  (
                                                    h (master lpt1),
                                                    (
                                                      h (slave cmos_clock),
                                                      (
                                                        h (slave vga),
                                                        (
                                                          h (slave mouse),
                                                          (
                                                            h (slave math_coprocessor),
                                                            (
                                                            h (slave hard_drive),
                                                            (
                                                            λ e. omega (arith, e),
                                                            (λ e. omega (arith, e), tt),
                                                            ),
                                                            ),
                                                          ),
                                                        ),
                                                      ),
                                                    ),
                                                  ),
                                                ),
                                              ),
                                            ),
                                          ),
                                        ),
                                      ),
                                    ),
                                  ),
                                ),
                              ),
                            ),
                          ),
                        ),
                      ),
                    ),
                  ),
                ),
              ),
            ),
          ),
        ),
      ),
    ),
  )

  -- The gate that the writes leave for a routine.
  gate_of : Routine → IdtGate
  gate_of r = set_gate (interrupt (number_of r) (address r)) zero_gate

  last_gate-installed :
      (r : Routine) → last_gate (installed_handlers address) (number_of r) zero_gate ≡ gate_of r
  unfolding last_gate installed_handlers number_of gate_of set_gate
  last_gate-installed (low divide_by_zero) = refl
  last_gate-installed (low debug_exception) = refl
  last_gate-installed (low nmi) = refl
  last_gate-installed (low breakpoint) = refl
  last_gate-installed (low into) = refl
  last_gate-installed (low bounds) = refl
  last_gate-installed (low invalid_opcode) = refl
  last_gate-installed (low device_not_available) = refl
  last_gate-installed (low double_fault) = refl
  last_gate-installed (low coprocessor_overrun) = refl
  last_gate-installed (high invalid_tss) = refl
  last_gate-installed (high segment_not_present) = refl
  last_gate-installed (high stack_exception) = refl
  last_gate-installed (high general_protection) = refl
  last_gate-installed (high page_fault) = refl
  last_gate-installed (high floating_point_error) = refl
  last_gate-installed (high alignment_check) = refl
  last_gate-installed (high machine_check) = refl
  last_gate-installed (master keyboard) = refl
  last_gate-installed (master req_from_slave_8259) = refl
  last_gate-installed (master com2) = refl
  last_gate-installed (master com1) = refl
  last_gate-installed (master lpt2) = refl
  last_gate-installed (master floppy_disk) = refl
  last_gate-installed (master lpt1) = refl
  last_gate-installed (slave cmos_clock) = refl
  last_gate-installed (slave vga) = refl
  last_gate-installed (slave mouse) = refl
  last_gate-installed (slave math_coprocessor) = refl
  last_gate-installed (slave hard_drive) = refl

  -- If the handlers stand at 32-bit addresses other than 0, the gate for the vector of each routine
  -- is an interrupt gate of the kernel's code segment for exactly that routine.
  pub start_int_service-gate :
      (r : Routine)
      → ((q : Routine) → address q ≢ 0)
      → address r < 2 ^ 32
      → ((start_int_service address (number_of r)).selector ≡ kernel_cs)
        × ((start_int_service address (number_of r)).kind ≡ interrupt_gate)
        × ((start_int_service address (number_of r)).offset_low
              + (start_int_service address (number_of r)).offset_high * 2 ^ 16
            ≡ address r)
  unfolding start_int_service int_handlers gate_of set_gate
  start_int_service-gate r nonzero small =
      let e =
        fill_idt-last_gate (installed_handlers address) (λ i. zero_gate) (number_of r)
          (installed-Nonzero nonzero)
        ∙ last_gate-installed r in
      (
        ap (λ (g : IdtGate). g.selector) e,
        ap (λ (g : IdtGate). g.kind) e,
        ap (λ (g : IdtGate). g.offset_low + g.offset_high * 2 ^ 16) e ∙ omega arith,
      )
