-- ===== src/Hal/Tests.antt =====
-- A descriptor and a stack at concrete values.
use mylysos.Base.{◌*◌, ◌^◌, ℕ, ◌+◌, ◌≡◌, true, arith}
use mylysos.Hal.{SegmentDesc, write_tss_into_gdt, kernel_cs}
use mylysos.Hal.Interrupts.{Routine, master, keyboard}
use mylysos.Hal.Idt.{start_int_service, interrupt_gate}
use mylysos.Hal.Idt.Actions.{number_of}
use mylysos.Hal.Idt.Laws.{start_int_service-gate}

abbrev blank : ℕ → SegmentDesc
blank i = record {
  limit_1 = 0;
  limit_2 = 0;
  base_1 = 0;
  base_2 = 0;
  base_3 = 0;
  kind = 0;
  glimit_3 = 0;
  base_4 = 0;
}

abbrev gdt : ℕ → SegmentDesc
gdt = write_tss_into_gdt 0x12345678 104 0x28 true blank

abbrev address : Routine → ℕ
address r = 0x11000

start_int_service-gate_example :
    ((start_int_service address (number_of (master keyboard))).selector ≡ kernel_cs)
    × ((start_int_service address (number_of (master keyboard))).kind ≡ interrupt_gate)
    × ((start_int_service address (number_of (master keyboard))).offset_low
          + (start_int_service address (number_of (master keyboard))).offset_high * 2 ^ 16
        ≡ address (master keyboard))
start_int_service-gate_example =
    start_int_service-gate address (master keyboard) (λ q e. omega (arith, e)) (omega arith)
