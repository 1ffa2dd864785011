-- ===== src/Kmain/Segments.antt =====
-- The segments that `InitGdt` describes.
use cosmo.Gdt.{GlobalDescriptorTable, set_gate}
use cosmo.Gdt.Segment.{Segment, segment}
use cosmo.Kmain.{init_gdt}
use cosmo.Prelude.{ℕ, ◌≡◌, refl}

-- All four gigabytes, in pages of 4 KiB, with 32-bit operands.
abbrev pub flat : ℕ → Segment
flat access = record { base = 0; limit = 0xFFFFF; access = access; flags = 0xC }

-- After `InitGdt` the processor reads the null segment at index 0, and flat segments of four
-- gigabytes for the kernel's code and data and for the user's at the indices 1 to 4.
pub init_gdt-segments :
    (gdt : GlobalDescriptorTable)
    → let g = (init_gdt gdt).gdt_entries in
      (segment (g 0) ≡ (record { base = 0; limit = 0; access = 0; flags = 0 }))
      × (segment (g 1) ≡ flat 0x9A)
      × (segment (g 2) ≡ flat 0x92)
      × (segment (g 3) ≡ flat 0xFA)
      × (segment (g 4) ≡ flat 0xF2)
unfolding init_gdt set_gate
init_gdt-segments gdt = (refl, refl, refl, refl, refl)
