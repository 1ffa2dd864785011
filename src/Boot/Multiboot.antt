-- ===== src/Boot/Multiboot.antt =====
-- include/Boot/multiboot.h: the members of the information structure and of the memory map that
-- the kernel reads, by their offsets from the structures' addresses in memory.
use cosmo.Memory.{Memory, load32}
use cosmo.Prelude.{ℕ, ◌+◌}

-- `MULTIBOOT_BOOTLOADER_MAGIC`.
abbrev pub bootloader_magic : ℕ
bootloader_magic = 0x2BADB002

-- `MULTIBOOT_INFO_MEMORY`.
abbrev pub info_memory : ℕ
info_memory = 1

-- `MULTIBOOT_MEMORY_AVAILABLE`.
abbrev pub memory_available : ℕ
memory_available = 1

-- Members of `struct multiboot_info`.
abbrev pub info_flags : Memory → ℕ → ℕ
info_flags m info = load32 m info

abbrev pub info_mem_upper : Memory → ℕ → ℕ
info_mem_upper m info = load32 m (info + 8)

abbrev pub info_mmap_length : Memory → ℕ → ℕ
info_mmap_length m info = load32 m (info + 44)

abbrev pub info_mmap_addr : Memory → ℕ → ℕ
info_mmap_addr m info = load32 m (info + 48)

-- `sizeof(multiboot_memory_map_t)`, and members of that structure.
abbrev pub mmap_entry_size : ℕ
mmap_entry_size = 24

abbrev pub mmap_addr_low : Memory → ℕ → ℕ
mmap_addr_low m entry = load32 m (entry + 4)

abbrev pub mmap_len_low : Memory → ℕ → ℕ
mmap_len_low m entry = load32 m (entry + 12)

abbrev pub mmap_type : Memory → ℕ → ℕ
mmap_type m entry = load32 m (entry + 20)
