-- ===== src/Gdt/Tests.antt =====
-- The kernel's code segment, in the table of three entries that `InitGdt` sets up.
use cosmo.Gdt.{GdtEntry, GlobalDescriptorTable, construct, set_gate}
use cosmo.Gdt.Segment.{segment, set_gate-segment}
use cosmo.Prelude.{ℕ, ◌≡◌, ◌≢◌, arith}

abbrev zeros : ℕ → GdtEntry
zeros i = record {
  limit_low = 0;
  base_low = 0;
  base_middle = 0;
  access = 0;
  granularity = 0;
  base_high = 0;
}

abbrev table : GlobalDescriptorTable
table = construct 3 0xC0104000 zeros

set_gate-segment_example :
    let g = set_gate 1 0x12345678 0xFFFFFFFF 0x9A 0xCF table in
    (segment (g.gdt_entries 1)
      ≡ (record { base = 0x12345678; limit = 0xFFFFF; access = 0x9A; flags = 0xC }))
    × (◌≢◌ {A = ℕ} 2 1 → g.gdt_entries 2 ≡ table.gdt_entries 2)
set_gate-segment_example =
    set_gate-segment 1 0x12345678 0xFFFFFFFF 0x9A 0xCF 2 table (omega arith) (omega arith)
