-- ===== src/Kmain/Sample.antt =====
-- A kernel before its start, with a table of zeros, two fresh controllers, and a boot information
-- structure with its memory flag, for the tests.
use cosmo.Boot.Multiboot.{info_flags}
use cosmo.FrameBuffer.Cursor.{Crtc}
use cosmo.Gdt
use cosmo.Gdt.{GlobalDescriptorTable}
use cosmo.Idt
use cosmo.Idt.{InterruptDescriptorTable, zero_entry}
use cosmo.Kmain.Boot.{Kernel, BootArguments}
use cosmo.Memory.{Memory, load32, store32}
use cosmo.Pic.{pic1_data, pic2_data}
use cosmo.Pic.Chip.{Chip, ready, chip, master, slave, IsPic, IsReady}
use cosmo.PortIo.{Hardware}
use cosmo.Prelude.{ℕ, ◌+◌, ◌*◌, bit_and, ◌≢◌, false, ◌==◌, if◌then◌else◌, refl, arith, []}

abbrev pub table : GlobalDescriptorTable
table = Gdt.construct 5 0xC0104000 (λ i. record {
  limit_low = 0;
  base_low = 0;
  base_middle = 0;
  access = 0;
  granularity = 0;
  base_high = 0;
})

abbrev pub fresh : Chip
fresh = record { phase = ready; icw1 = 0x11; offset = 8; cascade = 4; mode = 1; mask = 0 }

abbrev pub ports : Hardware
ports h port =
    if port == pic1_data
    then (master fresh fresh h).mask
    else if port == pic2_data
    then (slave fresh fresh h).mask
    else 0

pub ports-IsPic : IsPic fresh fresh ports
ports-IsPic = record { reads_master = λ h e. refl; reads_slave = λ h e. refl }

pub started-IsReady : IsReady fresh fresh []
unfolding chip
started-IsReady = record {
  master_ready = refl;
  slave_ready = refl;
  master_byte = omega arith;
  slave_byte = omega arith;
}

-- Entry points 16 bytes apart, and the table of the constructor.
abbrev pub isr : ℕ → ℕ
isr i = 0xC0101000 + i * 16

abbrev pub irq : ℕ → ℕ
irq i = 0xC0102000 + i * 16

abbrev pub cleared : InterruptDescriptorTable
cleared = record {
  idtr = record { limit = 0; base = 0 };
  idt_entries = λ k. zero_entry;
  enabled_vectors = λ k. false;
}

abbrev pub idt : InterruptDescriptorTable
idt = Idt.construct isr irq 0xC0105000 cleared

-- A kernel before its start, with a boot information structure at 0x9000 that has its memory flag,
-- and a memory map of one available region, of four frames from address 0 on.
abbrev pub machine_memory : Memory
machine_memory =
    store32
      (store32 (store32 (store32 (store32 (λ a. 0) 0x9000 1) 0x902C 24) 0x9030 0xA000) 0xC000A00C
        0x4000)
      0xC000A014 1

abbrev pub kernel : Kernel
kernel = record {
  screen = record { video_mem = λ k. 0x0F20; attr_byte = 0x0F; x = 0; y = 0; ports = [] };
  log_buffer = λ a. 0;
  gdt = table;
  idt = idt;
  interrupts = false;
  loaded_gdt = record { limit = 0; base = 0 };
  loaded_idt = record { limit = 0; base = 0 };
  allocator = record {
    mem_size = 0;
    max_frames = 0;
    used_frames = 0;
    pmmap_size = 0;
    pmmap = 0;
    memory = machine_memory;
  };
}

abbrev pub registers : Crtc
registers = record { index = 0; high = 0; low = 0 }

abbrev pub arguments : ℕ → BootArguments
arguments magic = record {
  kernel_physical_start = 0x100000;
  kernel_physical_end = 0x110000;
  kernel_virtual_start = 0xC0100000;
  kernel_virtual_end = 0xC0110000;
  kernel_virtual_base = 0xC0000000;
  mboot_magic = magic;
  mboot_header = 0x9000;
}

pub memory_flag : bit_and (info_flags machine_memory 0x9000) 1 ≢ 0
unfolding load32 store32
memory_flag e = omega arith
