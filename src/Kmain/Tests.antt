-- ===== src/Kmain/Tests.antt =====
-- Starts of the sample kernel, and the theorems there.
use cosmo.Cpu.{Cpu, TableRegister, table_register_at}
use cosmo.Cpu.Sample
use cosmo.Gdt.{construct}
use cosmo.Gdt.Flush.{flush_gdt}
use cosmo.Memory.{load32, store8, store32}
use cosmo.Kmain.{init_gdt}
use cosmo.FrameBuffer.Terminal.{terminal, type_text}
use cosmo.Kmain.Boot.{bad_magic, finished, Kernel, kernel_main}
use cosmo.Kmain.Boots.{Boots, kernel_main-Boots}
use cosmo.Kmain.Displays.{log_text, boot_messages, greeted, kernel_main-shows}
use cosmo.Kmain.Halts.{Rejects, kernel_main-Rejects}
use cosmo.Kmain.Messages.{bad_magic_message}
use cosmo.Kmain.Selectors.{IsFlat, flush_gdt-IsFlat}
use cosmo.Prelude.{◌+◌, u32, inl, some, ◌≡◌, refl, arith}
use cosmo.Kmain.Sample.{
  table, fresh, ports, ports-IsPic, started-IsReady, kernel, registers, arguments, memory_flag,
}

-- The register of the table, 39 and the table's address, at 3 GB and 3 MB.
abbrev flushing : Cpu
flushing =
    Sample.program (
      store32 (store8 (store32 (λ a. 0) 0xC0200004 0xC0300000) 0xC0300000 39) 0xC0300002 0xC0106000)

abbrev register : TableRegister
register = table_register_at flushing.memory (load32 flushing.memory (u32 (flushing.esp + 4)))

register-gdtr :
    let g = init_gdt (construct 5 0xC0106000 table.gdt_entries) in
    (register.limit ≡ g.gdtr.limit) × (register.base ≡ g.gdtr.base)
unfolding load32 store32 construct init_gdt
register-gdtr = (refl, refl)

flush_gdt-IsFlat_example :
    let g = init_gdt (construct 5 0xC0106000 table.gdt_entries) in
    let d = flush_gdt flushing in
    IsFlat g.gdt_entries d
    × (d.gdtr.base ≡ u32 0xC0106000)
    × (d.eip ≡ load32 flushing.memory flushing.esp)
    × (d.esp ≡ u32 (flushing.esp + 4))
flush_gdt-IsFlat_example =
    flush_gdt-IsFlat flushing 0xC0106000 table.gdt_entries register-gdtr.0 register-gdtr.1

kernel_main-Rejects_example :
    Rejects registers kernel bad_magic bad_magic_message (kernel_main ports (arguments 7) kernel)
kernel_main-Rejects_example =
    kernel_main-Rejects registers ports (arguments 7) kernel (omega arith) (inl (λ e. omega arith))

kernel_main-Boots_example :
    Boots fresh fresh registers
      (arguments 0x2BADB002)
      kernel
      (kernel_main ports (arguments 0x2BADB002) kernel)
kernel_main-Boots_example =
    kernel_main-Boots fresh fresh registers ports (arguments 0x2BADB002) kernel ports-IsPic
      started-IsReady (omega arith) refl memory_flag

kernel_main-shows_example :
    (k' : Kernel) × (kernel_main ports (arguments 0x2BADB002) kernel ≡ some (finished, k'))
    × (terminal k'.screen ≡ type_text (log_text boot_messages) (greeted (terminal kernel.screen)))
kernel_main-shows_example =
    kernel_main-shows registers ports (arguments 0x2BADB002) kernel (omega arith) refl memory_flag
