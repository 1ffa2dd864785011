-- ===== src/Kmain/Boot.antt =====
-- `kernel_main` and the rest of kernel/kmain.cc. A kernel is the one instance of each class, with the
-- machine's memory in the allocator and the machine's ports in the screen, and the registers of the
-- tables that the processor has loaded. The endless loop of `Halt`
-- is where the model ends, with the place that called it. `none` is a step that C++ leaves undefined.
use cosmo.Boot.Multiboot.{bootloader_magic, info_memory, info_flags, info_mem_upper}
use cosmo.FrameBuffer.{
  FrameBuffer, color, light_cyan, white, black, clear_screen, set_color, print_string,
}
use cosmo.Gdt.{GlobalDescriptorTable, GdtRegister}
use cosmo.Idt.{InterruptDescriptorTable, IdtRegister}
use cosmo.Interrupts.Screen.{screen-Writer}
use cosmo.Kmain.{init_gdt, init_pic}
use cosmo.Kmain.Messages.{
  logo_lines, verifying_magic, bad_magic_message, magic_found, no_memory_message, memory_found,
  verifying_memory_info, gdt_start, gdt_done, idt_start, idt_done, pic_start, pic_done,
  allocator_start, allocator_done,
}
use cosmo.Logger.Format.{LogLevel, info, error, log}
use cosmo.Logger.Options.{◌>>=◌}
use cosmo.Memory.{Memory}
use cosmo.PortIo.{Hardware}
use cosmo.Prelude.{
  ℕ, ◌+◌, ◌==◌, not, if◌then◌else◌, Option, some, List, [], ◌∷◌, Bool, true, bit_and, u32,
}
use cosmo.Vmem.Allocator.{PhysicalFrameAllocator, KernelDescriptor, init}

pub record Kernel : Type 0 where
  pub screen : FrameBuffer
  pub log_buffer : Memory
  pub gdt : GlobalDescriptorTable
  pub idt : InterruptDescriptorTable
  pub interrupts : Bool
  pub loaded_gdt : GdtRegister
  pub loaded_idt : IdtRegister
  pub allocator : PhysicalFrameAllocator

-- The calls of `Halt`, in their order.
pub data Halt : Type 0 where
  bad_magic no_memory_info finished : Halt

-- The arguments of `kernel_main`.
pub record BootArguments : Type 0 where
  pub kernel_physical_start : ℕ
  pub kernel_physical_end : ℕ
  pub kernel_virtual_start : ℕ
  pub kernel_virtual_end : ℕ
  pub kernel_virtual_base : ℕ
  pub mboot_magic : ℕ
  pub mboot_header : ℕ

unfoldable pub print_lines : List (List ℕ) → FrameBuffer → FrameBuffer
print_lines [] fb = fb
print_lines (line ∷ lines) fb = print_lines lines (print_string (some line) fb)

-- `PrintLogo`, with the three blank lines of its second loop written out.
unfoldable pub print_logo : FrameBuffer → FrameBuffer
print_logo fb =
    let logo =
      print_lines logo_lines (set_color (color light_cyan) (color black) (clear_screen fb)) in
    let newline = b'\n' ∷ [] in
    set_color (color white) (color black) (print_lines (newline ∷ newline ∷ newline ∷ []) logo)

-- `LOG_INFO` and `LOG_ERROR` without arguments.
unfoldable pub report : LogLevel → List ℕ → Kernel → Option Kernel
unfolding log screen-Writer
report level message k = do
  (log_buffer, screen) ← log screen-Writer level message [] k.log_buffer k.screen
  some (record k { screen = screen; log_buffer = log_buffer })

-- `InitGdt` with its last call, of `FlushGdt`, by which the processor loads the table's register.
abbrev pub load_gdt : Kernel → Kernel
load_gdt k = record k { gdt = init_gdt k.gdt; loaded_gdt = (init_gdt k.gdt).gdtr }

-- `InitIdt`: by `FlushIdt` the processor loads the table's register, then the interrupts are enabled.
abbrev pub init_idt : Kernel → Kernel
init_idt k = record k { loaded_idt = k.idt.idtr; interrupts = true }

abbrev pub init_pic_ports : Hardware → Kernel → Kernel
init_pic_ports hardware k = record k {
  screen = record (k.screen) { ports = (init_pic hardware k.screen.ports).1 };
}

-- The descriptor that `kernel_main` makes of its arguments.
abbrev pub kernel_desc : BootArguments → KernelDescriptor
kernel_desc args = record {
  kernel_physical_start = args.kernel_physical_start;
  kernel_physical_end = args.kernel_physical_end;
  kernel_virtual_start = args.kernel_virtual_start;
  kernel_virtual_end = args.kernel_virtual_end;
  kernel_virtual_base = args.kernel_virtual_base;
}

-- `InitPhysicalFrameAllocator`.
unfoldable pub init_physical_frame_allocator : ℕ → KernelDescriptor → Kernel → Kernel
init_physical_frame_allocator mboot_hdr kernel_desc k =
    let mem_size_kb = u32 (1024 + info_mem_upper k.allocator.memory mboot_hdr) in
    record k {
      allocator =
          init k.allocator mboot_hdr kernel_desc.kernel_physical_end mem_size_kb kernel_desc;
    }

-- `kernel_main` from the set-up of the tables on.
unfoldable pub initialize : Hardware → BootArguments → Kernel → Option (Halt × Kernel)
initialize hardware args k = do
  k₁ ← report info gdt_start k
  k₂ ← report info gdt_done (load_gdt k₁)
  k₃ ← report info idt_start k₂
  k₄ ← report info idt_done (init_idt k₃)
  k₅ ← report info pic_start k₄
  k₆ ← report info pic_done (init_pic_ports hardware k₅)
  k₇ ← report info allocator_start k₆
  k₈ ←
      report info allocator_done
        (init_physical_frame_allocator args.mboot_header (kernel_desc args) k₇)
  some (finished, k₈)

-- `kernel_main` from the test of the memory information on.
unfoldable pub verify_memory : Hardware → BootArguments → Kernel → Option (Halt × Kernel)
verify_memory hardware args k =
    if bit_and (info_flags k.allocator.memory args.mboot_header) info_memory == 0
    then report error no_memory_message k >>= (λ (k' : Kernel). some (no_memory_info, k'))
    else report info memory_found k >>= initialize hardware args

-- `kernel_main` from the test of the magic value on.
unfoldable pub verify_magic : Hardware → BootArguments → Kernel → Option (Halt × Kernel)
verify_magic hardware args k =
    if not (args.mboot_magic == bootloader_magic)
    then report error bad_magic_message k >>= (λ (k' : Kernel). some (bad_magic, k'))
    else report info magic_found k
      >>= report info verifying_memory_info
      >>= verify_memory hardware args

unfoldable pub kernel_main : Hardware → BootArguments → Kernel → Option (Halt × Kernel)
kernel_main hardware args k =
    report info verifying_magic (record k { screen = print_logo k.screen })
    >>= verify_magic hardware args
