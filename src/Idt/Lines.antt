-- ===== src/Idt/Lines.antt =====
-- The way of an interrupt line, through the controllers with the default offsets and the table.
use cosmo.Idt.{InterruptDescriptorTable, construct}
use cosmo.Idt.Gates.{IsGateTo, entry_point, construct-gates}
use cosmo.Pic.{init, default_master_offset, default_slave_offset}
use cosmo.Pic.Chip.{Chip, master, slave, IsPic, IsReady}
use cosmo.Pic.Remap.{init-IsSetUp}
use cosmo.PortIo.{History, Hardware}
use cosmo.Prelude.{ℕ, ◌+◌, ◌-◌, ◌<◌, ◌^◌, ◌≡◌, refl, arith, ltb, if◌then◌else◌, sym}

module _ (start₁ start₂ : Chip) where
  -- The vector that the controllers put on the bus for line `k`: the master's for its own eight
  -- lines, the slave's for the others.
  abbrev pub vector : History → ℕ → ℕ
  vector h k =
      if ltb k 8
      then (master start₁ start₂ h).offset + k
      else (slave start₁ start₂ h).offset + (k - 8)

  -- With both controllers initialized before, and an entry point of 32 bits for the line: after
  -- `Init` with the default offsets, the vector of each of the sixteen lines leads through the
  -- table's gate to that line's entry point.
  pub line-IsGateTo :
      (hardware : Hardware)
      → IsPic start₁ start₂ hardware
      → (isr irq : ℕ → ℕ) (address k : ℕ) (memory : InterruptDescriptorTable) (h : History) → k < 16
      → irq k < 2 ^ 32
      → IsReady start₁ start₂ h
      → let g = (init hardware default_master_offset default_slave_offset h).1 in
        IsGateTo (irq k) ((construct isr irq address memory).idt_entries (vector g k))
  line-IsGateTo hardware pic isr irq address k memory h l a r =
      let set =
        init-IsSetUp start₁ start₂ hardware pic 0x20 0x28 h (omega arith) (omega arith) refl refl
          r in
      let g = (init hardware 0x20 0x28 h).1 in
      let line : vector g k ≡ k + 32 = ground (arith, set.0.offset, set.1.offset) in
      let point : entry_point isr irq (k + 32) ≡ irq k = ground arith in
      rw (line, sym point)
        ((construct-gates isr irq address (k + 32) memory (omega arith) (omega arith)).1
          (omega arith))
