-- ===== src/Kmain.antt =====
-- kernel/kmain.cc: the initialization of the descriptor table and of the interrupt controllers.
-- `FlushGdt` is on the processor in Selectors. Boot has the rest of the function, Displays what
-- the screen shows at its end.
pub mod Messages
pub mod Boot
pub mod Speaks
pub mod Halts
pub mod Boots
pub mod Displays
pub mod Ports
pub mod Lines
pub mod Segments
pub mod Selectors
pub mod Sample
mod Tests
use cosmo.Gdt.{GlobalDescriptorTable, set_gate}
use cosmo.Irq.{keyboard, number}
use cosmo.Pic.{init, set_mask, clear_mask, default_master_offset, default_slave_offset}
use cosmo.PortIo.{Hardware, Io, pure, ◌>>=◌, ◌>>◌}
use cosmo.Prelude.{ℕ, zero, suc, ◌+◌}

-- `InitGdt` on the table of five entries, up to its call of `FlushGdt`, which `Boot.load_gdt` adds.
unfoldable pub init_gdt : GlobalDescriptorTable → GlobalDescriptorTable
unfolding set_gate
init_gdt gdt =
    let g₀ = set_gate 0 0 0 0 0 gdt in
    let g₁ = set_gate 1 0 0xFFFFFFFF 0x9A 0xCF g₀ in
    let g₂ = set_gate 2 0 0xFFFFFFFF 0x92 0xCF g₁ in
    let g₃ = set_gate 3 0 0xFFFFFFFF 0xFA 0xCF g₂ in set_gate 4 0 0xFFFFFFFF 0xF2 0xCF g₃

-- The loop of `InitPic` at line `i`.
pub mask_lines : Hardware → ℕ → ℕ → Io (Unit {0})
mask_lines hardware i zero = pure tt
mask_lines hardware i (suc left) = set_mask hardware i >> mask_lines hardware (i + 1) left

unfoldable pub init_pic : Hardware → Io (Unit {0})
unfolding init set_mask clear_mask mask_lines
init_pic hardware = do
  init hardware default_master_offset default_slave_offset
  mask_lines hardware 0 8
  clear_mask hardware (number keyboard)
