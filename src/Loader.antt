-- ===== src/Loader.antt =====
-- kernel/loader.nasm and kernel/link.ld: from the boot loader to the call of `kernel_main`. The
-- processor's translation of addresses is modelled for the page directory's entries of 4 MB; what it
-- keeps of them in its caches, which `invlpg` forgets, is not.
pub mod Paging
pub mod Arguments
mod Tests
use cosmo.Cpu.{
  Cpu, Program, ◌>>◌, mov, mov_imm, or, add, push, push_word, eax, ebx, ecx, esp, cr0, cr3, cr4,
}
use cosmo.Memory.{Memory, load32, store32}
use cosmo.Prelude.{
  ℕ, zero, suc, ◌+◌, ◌-◌, ◌*◌, ◌/◌, ◌^◌, ◌<◌, ◌≤◌, ◌%◌, ◌≡◌, List, [], ◌∷◌, ◌++◌, bit_or, sub32,
  u32,
}

-- The addresses that the linker gives to labels of the loader, and the end of the kernel.
pub record Symbols : Type 0 where
  pub boot_page_directory : ℕ
  pub start_in_higher_half : ℕ
  pub stack : ℕ
  pub kernel_virtual_end : ℕ

-- What the link script makes of them: the directory in the data section, before the stack, which is in
-- the last section, and the kernel from 3 GB and 1 MB on. The kernel is to end within the 4 MB that
-- the loader maps.
pub record IsLinked (s : Symbols) : Type 0 where
  pub directory : 0xC0100000 ≤ s.boot_page_directory
  pub bss : s.boot_page_directory + 4096 ≤ s.stack
  pub kernel_end : s.stack + 0x4000 ≤ s.kernel_virtual_end
  pub mapped : s.kernel_virtual_end < 0xC0400000

-- The other symbols of the link script.
abbrev pub kernel_virtual_start : ℕ
kernel_virtual_start = 0xC0100000

abbrev pub kernel_physical_start : ℕ
kernel_physical_start = kernel_virtual_start - 0xC0000000

abbrev pub kernel_physical_end : Symbols → ℕ
kernel_physical_end s = s.kernel_virtual_end - 0xC0000000

-- The multiboot header.
abbrev pub flags : ℕ
flags = bit_or (2 ^ 0) (2 ^ 1)

abbrev pub magic : ℕ
magic = 0x1BADB002

abbrev pub checksum : ℕ
checksum = sub32 0 (magic + flags)

abbrev pub kernel_virtual_base : ℕ
kernel_virtual_base = 0xC0000000

abbrev pub kernel_page_number : ℕ
kernel_page_number = kernel_virtual_base / 2 ^ 22

abbrev pub stack_size : ℕ
stack_size = 0x4000

-- `times n dd 0`.
pub times : ℕ → ℕ → List ℕ
times zero v = []
times (suc n) v = v ∷ times n v

-- `BootPageDirectory`.
pub boot_page_directory : List ℕ
boot_page_directory =
    0x83 ∷ (times (kernel_page_number - 1) 0 ++ (0x83 ∷ times (1024 - kernel_page_number - 1) 0))

-- `_loader`: the directory, pages of 4 MB, and paging.
pub loader : Symbols → Program
loader s = do
  mov_imm ecx (s.boot_page_directory - kernel_virtual_base)
  mov cr3 ecx
  mov ecx cr4
  or ecx 0x00000010
  mov cr4 ecx
  mov ecx cr0
  or ecx 0x80000000
  mov cr0 ecx
  mov_imm ecx s.start_in_higher_half
  λ c. record c { eip = c.ecx }

-- `mov dword [BootPageDirectory], 0`.
abbrev pub unmap_identity : Symbols → Program
unmap_identity s c = record c { memory = store32 c.memory s.boot_page_directory 0 }

-- `StartInHigherHalf`, up to the call of `kernel_main` that returns to `back`.
pub start_in_higher_half : Symbols → ℕ → Program
start_in_higher_half s back = do
  unmap_identity s
  mov_imm esp (u32 (s.stack + stack_size))
  add ebx kernel_virtual_base
  push ebx
  push eax
  mov_imm eax kernel_virtual_base
  push eax
  push_word s.kernel_virtual_end
  push_word kernel_virtual_start
  push_word (kernel_physical_end s)
  push_word kernel_physical_start
  push_word back
