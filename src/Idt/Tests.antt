-- ===== src/Idt/Tests.antt =====
-- The table with entry points 16 bytes apart, behind two fresh controllers whose masks are clear.
use cosmo.Cpu.{Cpu, TableRegister, table_register_at}
use cosmo.Cpu.Sample
use cosmo.Idt.Flush.{flush_idt, looked_up, flush_idt-gates}
use cosmo.Memory.{load32, store8, store32}
use cosmo.Idt.{IdtEntry, IdtRegister, InterruptDescriptorTable, construct, is_enabled, zero_entry}
use cosmo.Idt.Gates.{IsGateTo, entry_point, construct-idtr}
use cosmo.Pic.{pic1_data, pic2_data}
use cosmo.Pic.Chip.{Chip, ready, chip, master, slave, IsPic, IsReady}
use cosmo.PortIo.{Hardware}
use cosmo.Prelude.{
  u32, none, some, sym, ap, ℕ, ◌+◌, ◌*◌, ◌≡◌, ◌<◌, ◌≤◌, ◌==◌, if◌then◌else◌, ltb, false, refl,
  arith, [],
}

abbrev isr : ℕ → ℕ
isr i = 0xC0101000 + i * 16

abbrev irq : ℕ → ℕ
irq i = 0xC0102000 + i * 16

abbrev memory : InterruptDescriptorTable
memory = record {
  idtr = record { limit = 0; base = 0 };
  idt_entries = λ k. zero_entry;
  enabled_vectors = λ k. false;
}

-- The register of the table, 2047 and the table's address, at 3 GB and 3 MB.
abbrev flushing : Cpu
flushing = Sample.program (
    store32 (store8 (store8 (store32 (λ a. 0) 0xC0200004 0xC0300000) 0xC0300000 255) 0xC0300001 7)
      0xC0300002 0xC0105000)

abbrev register : TableRegister
register = table_register_at flushing.memory (load32 flushing.memory (u32 (flushing.esp + 4)))

register-idtr :
    let g = construct isr irq 0xC0105000 memory in
    (register.limit ≡ g.idtr.limit) × (register.base ≡ g.idtr.base)
unfolding load32 store32
register-idtr =
    let idtr = construct-idtr isr irq 0xC0105000 memory in
    (sym (ap (λ (r : IdtRegister). r.limit) idtr), sym (ap (λ (r : IdtRegister). r.base) idtr))

flush_idt-gates_example :
    let g = construct isr irq 0xC0105000 memory in
    let d = flush_idt flushing in
    (33 < 48
      → (gate : IdtEntry) × (looked_up d.idtr g.idt_entries 33 ≡ some gate)
        × IsGateTo (entry_point isr irq 33) gate)
    × (48 ≤ 33 → 33 < 256 → looked_up d.idtr g.idt_entries 33 ≡ some zero_entry)
    × (33 < 256 → is_enabled g 33 ≡ ltb 33 48)
    × (256 ≤ 33 → looked_up d.idtr g.idt_entries 33 ≡ none)
    × (d.idtr.base ≡ u32 0xC0105000)
    × (d.eip ≡ load32 flushing.memory flushing.esp)
    × (d.esp ≡ u32 (flushing.esp + 4))
flush_idt-gates_example =
    flush_idt-gates flushing isr irq 0xC0105000 33 memory (omega arith) register-idtr.0
      register-idtr.1

abbrev fresh : Chip
fresh = record { phase = ready; icw1 = 0x11; offset = 8; cascade = 4; mode = 1; mask = 0 }

abbrev ports : Hardware
ports h port =
    if port == pic1_data
    then (master fresh fresh h).mask
    else if port == pic2_data
    then (slave fresh fresh h).mask
    else 0

ports-IsPic : IsPic fresh fresh ports
ports-IsPic = record { reads_master = λ h e. refl; reads_slave = λ h e. refl }

started-IsReady : IsReady fresh fresh []
unfolding chip
started-IsReady = record {
  master_ready = refl;
  slave_ready = refl;
  master_byte = omega arith;
  slave_byte = omega arith;
}
