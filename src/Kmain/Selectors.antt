-- ===== src/Kmain/Selectors.antt =====
-- The segments that the processor works with after `InitGdt` and `FlushGdt`.
use cosmo.Cpu.{Cpu, table_register_at}
use cosmo.Gdt.{GdtEntry, construct, set_gate}
use cosmo.Gdt.Flush.{flush_gdt, selected}
use cosmo.Kmain.{init_gdt}
use cosmo.Kmain.Segments.{flat}
use cosmo.Memory.{load32}
use cosmo.Prelude.{ℕ, ◌+◌, ◌*◌, ◌/◌, ◌^◌, ◌≡◌, refl, arith, some, u16, u32}

-- The code segment is the kernel's flat one, the others its flat data segment.
pub record IsFlat (entries : ℕ → GdtEntry) (d : Cpu) : Type 0 where
  pub code : selected d.gdtr entries d.cs ≡ some (flat 0x9A)
  pub data_ds : selected d.gdtr entries d.ds ≡ some (flat 0x92)
  pub data_es : selected d.gdtr entries d.es ≡ some (flat 0x92)
  pub data_fs : selected d.gdtr entries d.fs ≡ some (flat 0x92)
  pub data_gs : selected d.gdtr entries d.gs ≡ some (flat 0x92)
  pub stack : selected d.gdtr entries d.ss ≡ some (flat 0x92)

-- With the register of a table of five entries at the address that is passed: after `InitGdt` and
-- `flush_gdt` the processor has the table's address, its code segment is the flat one of the
-- kernel's code, and its five other segments are the flat one of the kernel's data. It returns to
-- its caller.
pub flush_gdt-IsFlat :
    (c : Cpu) (address : ℕ) (entries : ℕ → GdtEntry)
    → let g = init_gdt (construct 5 address entries) in
      let gdtr = table_register_at c.memory (load32 c.memory (u32 (c.esp + 4))) in
      gdtr.limit ≡ g.gdtr.limit
      → gdtr.base ≡ g.gdtr.base
      → let d = flush_gdt c in
        IsFlat g.gdt_entries d
        × (d.gdtr.base ≡ u32 address)
        × (d.eip ≡ load32 c.memory c.esp)
        × (d.esp ≡ u32 (c.esp + 4))
unfolding flush_gdt init_gdt construct set_gate
flush_gdt-IsFlat c address entries l b =
    let at = load32 c.memory (u32 (c.esp + 4)) in
    let selector : u16 (at / 2 ^ 16 * 2 ^ 16 + 0x10) ≡ 0x10 = omega arith in
    (
      record {
        code = rw l refl;
        data_ds = rw (selector, l) refl;
        data_es = rw (selector, l) refl;
        data_fs = rw (selector, l) refl;
        data_gs = rw (selector, l) refl;
        stack = rw (selector, l) refl;
      },
      b,
      refl,
      refl,
    )
