-- ===== src/Idt/Flush.antt =====
-- src/InterruptDescriptorTable/FlushIDT.nasm: the table of interrupts is loaded.
use cosmo.Cpu.{Cpu, Program, TableRegister, ◌>>◌, load, lidt, ret, table_register_at, eax, esp}
use cosmo.Idt.{IdtEntry, IdtRegister, InterruptDescriptorTable, construct, is_enabled, zero_entry}
use cosmo.Idt.Gates.{IsGateTo, entry_point, construct-gates, construct-idtr}
use cosmo.Memory.{load32}
use cosmo.Prelude.{
  ℕ, ◌+◌, ◌*◌, ◌^◌, ◌<◌, ◌≤◌, ◌≡◌, refl, arith, ap, ◌∙◌, ltb, leb, if◌then◌else◌, true, false,
  Option, none, some, u32,
}

unfoldable pub flush_idt : Program
unfolding ret
flush_idt = do load eax esp 4; lidt eax; ret

-- The gate that the processor reads for a vector, where it lies within the limit.
abbrev pub looked_up : TableRegister → (ℕ → IdtEntry) → ℕ → Option IdtEntry
looked_up idtr entries vector =
    if leb (vector * 8 + 7) idtr.limit then some (entries vector) else none

-- With the register of the constructed table at the address that is passed, and entry points of 32
-- bits: after `flush_idt` the processor finds for each vector below 48 a present gate to the
-- vector's entry point, for the others below 256 an entry of zeros, and none from 256 on. It has
-- the table's address and returns to its caller. The object's flags say below 256 which entries are
-- gates.
pub flush_idt-gates :
    (c : Cpu) (isr irq : ℕ → ℕ) (address k : ℕ) (memory : InterruptDescriptorTable)
    → entry_point isr irq k < 2 ^ 32
    → let g = construct isr irq address memory in
      let idtr = table_register_at c.memory (load32 c.memory (u32 (c.esp + 4))) in
      idtr.limit ≡ g.idtr.limit
      → idtr.base ≡ g.idtr.base
      → let d = flush_idt c in
        (k < 48
          → (gate : IdtEntry) × (looked_up d.idtr g.idt_entries k ≡ some gate)
            × IsGateTo (entry_point isr irq k) gate)
        × (48 ≤ k → k < 256 → looked_up d.idtr g.idt_entries k ≡ some zero_entry)
        × (k < 256 → is_enabled g k ≡ ltb k 48)
        × (256 ≤ k → looked_up d.idtr g.idt_entries k ≡ none)
        × (d.idtr.base ≡ u32 address)
        × (d.eip ≡ load32 c.memory c.esp)
        × (d.esp ≡ u32 (c.esp + 4))
unfolding flush_idt
flush_idt-gates c isr irq address k memory a l b =
    let gates = λ (h : k < 256). construct-gates isr irq address k memory h a in
    let g = construct isr irq address memory in
    let register = construct-idtr isr irq address memory in
    let size = l ∙ ap (λ (r : IdtRegister). r.limit) register in
    (
      λ h.
          let inside : leb (k * 8 + 7) 2047 ≡ true = ground arith in
          (g.idt_entries k, rw (size, inside) refl, (gates (omega arith)).1 h),
      λ h i.
          let inside : leb (k * 8 + 7) 2047 ≡ true = ground arith in
          rw (size, inside) (ap some ((gates i).2 h)),
      λ h. (gates h).0,
      λ h. let outside : leb (k * 8 + 7) 2047 ≡ false = ground arith in rw (size, outside) refl,
      b ∙ ap (λ (r : IdtRegister). r.base) register,
      refl,
      refl,
    )
