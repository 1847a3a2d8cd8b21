-- ===== src/Hal/Laws.antt =====
-- What the processor reads back from a descriptor and from the stack of a new task.
use mylysos.Base.{
  ℕ, ◌+◌, ◌*◌, ◌/◌, ◌^◌, ◌≤◌, ◌<◌, ◌≡◌, ◌⊎◌, refl, ap, ◌∙◌, Bool, true, false, bit_and, bit_or,
  if◌then◌else◌, arith, update, update_self, update-update,
}
use mylysos.Hal.{
  SegmentDesc, tss_desc, write_tss_into_gdt, change_tss_busy_bit, push_frame, setup_tss, kernel_cs,
  user_cs,
}

-- The base and the limit that a descriptor stands for.
abbrev pub base_of : SegmentDesc → ℕ
base_of d = d.base_1 + d.base_2 * 2 ^ 8 + d.base_3 * 2 ^ 16 + d.base_4 * 2 ^ 24

abbrev pub limit_of : SegmentDesc → ℕ
limit_of d = d.limit_1 + d.limit_2 * 2 ^ 8 + d.glimit_3 * 2 ^ 16

-- The type of a task state segment, with the bit set or cleared.
kind_of_bit :
    (busy bit : Bool)
    → (if bit
        then bit_or (if busy then 0x8b else 0x89) 0x02
        else bit_and (if busy then 0x8b else 0x89) 0xfd)
      ≡ (if bit then 0x8b else 0x89)
kind_of_bit true true = refl
kind_of_bit true false = refl
kind_of_bit false true = refl
kind_of_bit false false = refl

-- Changing the busy bit of a written descriptor is writing it with that bit.
pub change-write_tss :
    (address size number : ℕ) (busy bit : Bool) (gdt : ℕ → SegmentDesc) (j : ℕ)
    → change_tss_busy_bit number bit (write_tss_into_gdt address size number busy gdt) j
      ≡ write_tss_into_gdt address size number bit gdt j
unfolding change_tss_busy_bit write_tss_into_gdt
change-write_tss address size number busy bit gdt j =
    let d = gdt (number / 8) in
    let written : Bool → SegmentDesc = λ b. tss_desc address size (if b then 0x8b else 0x89) d in
    let kind : ℕ → ℕ = λ k. if bit then bit_or k 0x02 else bit_and k 0xfd in
    let changed : SegmentDesc → SegmentDesc = λ x. record x { kind = kind x.kind } in
    let gdt' = update gdt (number / 8) (written busy) in
    ap (λ x. update gdt' (number / 8) (changed x) j) (update_self gdt (number / 8) (written busy))
    ∙ ap (λ k. update gdt' (number / 8) (tss_desc address size k d) j) (kind_of_bit busy bit)
    ∙ update-update gdt (number / 8) (written busy) (written bit) j

module _ (flags ptr psize : ℕ) (is_kernel : Bool) (entry base size : ℕ) (memory : ℕ → ℕ) where
  -- For a stack of at least 16 bytes below 2 GB, the task that HalSetupTSS sets up finds on top of
  -- its stack the words that IRETD pops: the entry point, the code segment and the flags with
  -- interrupts enabled. They lie on the stack, and the memory outside the stack stays as it is.
  pub setup_tss-frame :
      (a : ℕ)
      → 16 ≤ size
      → base + size ≤ 2 ^ 31
      → (a < base) ⊎ (base + size ≤ a)
      → let (t, m) = setup_tss flags ptr psize is_kernel entry base size memory in
        (m t.esp ≡ entry)
        × (m (t.esp + 4) ≡ (if is_kernel then kernel_cs else user_cs))
        × (m (t.esp + 8) ≡ bit_or flags 0x0200)
        × (base ≤ t.esp)
        × (t.esp + 12 < base + size)
        × (m a ≡ memory a)
  unfolding setup_tss push_frame update
  setup_tss-frame a h k o =
      (ground arith, ground arith, ground arith, omega arith, omega arith, ground arith)
