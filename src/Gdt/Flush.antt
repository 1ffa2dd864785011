-- ===== src/Gdt/Flush.antt =====
-- src/GlobalDescriptorTable/FlushGDT.nasm: the table of segments is loaded.
use cosmo.Cpu.{
  Program, TableRegister, ◌>>◌, load, lgdt, mov, mov_low, far_jump, ret, eax, esp, ds, es, fs, gs,
  ss,
}
use cosmo.Gdt.{GdtEntry}
use cosmo.Gdt.Segment.{Segment, segment}
use cosmo.Prelude.{ℕ, ◌+◌, ◌*◌, ◌/◌, leb, if◌then◌else◌, Option, none, some}

unfoldable pub flush_gdt : Program
unfolding ret
flush_gdt = do
  load eax esp 4
  lgdt eax
  mov_low eax 0x10
  mov ds eax
  mov es eax
  mov fs eax
  mov gs eax
  mov ss eax
  far_jump 0x08
  ret

-- The segment of a selector of the global table: its index is above three bits, and its entry is to
-- lie within the limit.
abbrev pub selected : TableRegister → (ℕ → GdtEntry) → ℕ → Option Segment
selected gdtr entries selector =
    if leb (selector / 8 * 8 + 7) gdtr.limit then some (segment (entries (selector / 8))) else none
