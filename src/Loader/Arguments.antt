-- ===== src/Loader/Arguments.antt =====
-- What the loader passes to `kernel_main`, and what becomes of it.
use cosmo.Cpu.{Cpu, push_word}
use cosmo.Cpu.Stack.{push_words, push_words-IsStacked, load32-Holds}
use cosmo.Kmain.Boot.{Kernel, BootArguments, kernel_desc, init_physical_frame_allocator}
use cosmo.Loader.{Symbols, IsLinked, loader, start_in_higher_half, kernel_physical_end}
use cosmo.Loader.Paging.{IsLoaded, translate, pushed, on_stack, in_window, loader-translates}
use cosmo.Memory.{Memory, load32}
use cosmo.Vmem.Allocator.{physical_to_virtual}
use cosmo.Vmem.Allocator.Place.{init-pmmap}
use cosmo.Prelude.{
  ◌%◌, ℕ, ◌+◌, ◌-◌, ◌*◌, ◌^◌, ◌<◌, ◌≡◌, ◌≢◌, refl, sym, ◌∙◌, arith, ltb, if◌then◌else◌, none, some,
  u32, [], ◌∷◌,
}

-- The arguments on the stack, behind the address to return to.
abbrev pub arguments_at : Memory → ℕ → BootArguments
arguments_at m esp = record {
  kernel_physical_start = load32 m (esp + 4);
  kernel_physical_end = load32 m (esp + 8);
  kernel_virtual_start = load32 m (esp + 12);
  kernel_virtual_end = load32 m (esp + 16);
  kernel_virtual_base = load32 m (esp + 20);
  mboot_magic = load32 m (esp + 24);
  mboot_header = load32 m (esp + 28);
}

-- The arguments that are meant.
pub record IsHandedOver (s : Symbols) (c : Cpu) (args : BootArguments) : Type 0 where
  pub physical_start : args.kernel_physical_start ≡ 0x100000
  pub physical_end : args.kernel_physical_end ≡ s.kernel_virtual_end - 0xC0000000
  pub virtual_start : args.kernel_virtual_start ≡ 0xC0100000
  pub virtual_end : args.kernel_virtual_end ≡ s.kernel_virtual_end
  pub virtual_base : args.kernel_virtual_base ≡ 0xC0000000
  pub magic : args.mboot_magic ≡ c.eax
  pub header : args.mboot_header ≡ u32 (c.ebx + 0xC0000000)

-- With the boot loader's values in eax and ebx, `kernel_main` is passed the kernel's addresses by the
-- link script, the value of eax, and the address of the information structure in the kernel's window.
pub start-IsHandedOver :
    (s : Symbols) (back : ℕ) (c : Cpu)
    → IsLinked s
    → c.eax < 2 ^ 32
    → back < 2 ^ 32
    → let d = start_in_higher_half s back c in
      IsHandedOver s c (arguments_at d.memory d.esp) × (load32 d.memory d.esp ≡ back)
unfolding start_in_higher_half push_words push_word
start-IsHandedOver s back c i e b =
    let d = start_in_higher_half s back c in
    let top : u32 (s.stack + 0x4000) ≡ s.stack + 0x4000 = omega (arith, i.mapped, i.kernel_end) in
    let stack =
      push_words-IsStacked {vs = []} (u32 (s.stack + 0x4000)) (pushed s back c) (on_stack s c)
        (omega (arith, i.mapped)) (omega (arith, top, i.directory, i.bss)) (omega arith)
        (record { words = tt; size = omega arith }) in
    let words =
      0x100000
      ∷ kernel_physical_end s
      ∷ 0xC0100000
      ∷ s.kernel_virtual_end
      ∷ 0xC0000000
      ∷ c.eax
      ∷ u32 (c.ebx + 0xC0000000)
      ∷ [] in
    let word = λ (k : ℕ) (l : k < 8).
      load32-Holds d.memory d.esp (back ∷ words) k (d.esp + 4 * k) stack.words l refl in
    (
      record {
        physical_start = word 1 (omega arith);
        physical_end = word 2 (omega arith);
        virtual_start = word 3 (omega arith);
        virtual_end = word 4 (omega arith);
        virtual_base = word 5 (omega arith);
        magic = word 6 (omega arith);
        header = word 7 (omega arith);
      },
      load32-Holds d.memory d.esp (back ∷ words) 0 d.esp stack.words (omega arith) (omega arith),
    )

-- With the directory of the loader's image in memory, aligned to a page, and an information structure whose address in
-- the window is not null: over any memory map, `InitPhysicalFrameAllocator` with the arguments of
-- `kernel_main` puts the bitmap at the byte of the memory that lies 1 MB behind the kernel's end, if
-- the kernel ends below 3 MB, and else to an address that does not translate.
pub init_physical_frame_allocator-place :
    (s : Symbols) (back : ℕ) (c : Cpu) (k : Kernel)
    → IsLinked s
    → s.boot_page_directory % 4096 ≡ 0
    → IsLoaded s c.memory
    → c.eax < 2 ^ 32
    → back < 2 ^ 32
    → u32 (c.ebx + 0xC0000000) ≢ 0
    → let d = start_in_higher_half s back (loader s c) in
      let args = arguments_at d.memory d.esp in
      let k' = init_physical_frame_allocator args.mboot_header (kernel_desc args) k in
      translate d k'.allocator.pmmap ≡ (
        if ltb (kernel_physical_end s) 0x300000
        then some (kernel_physical_end s + 0x100000)
        else none)
unfolding init_physical_frame_allocator physical_to_virtual loader
init_physical_frame_allocator-place s back c k i aligned m e b h =
    let d = start_in_higher_half s back (loader s c) in
    let args = arguments_at d.memory d.esp in
    let k' = init_physical_frame_allocator args.mboot_header (kernel_desc args) k in
    let handed = (start-IsHandedOver s back (loader s c) i e b).0 in
    let header : args.mboot_header ≢ 0 = λ z. h (sym handed.header ∙ z) in
    let place : k'.allocator.pmmap ≡ kernel_physical_end s + 0xC0100000 =
      init-pmmap k.allocator args.mboot_header args.kernel_physical_end _ (kernel_desc args) header
      ∙ omega (arith, handed.physical_end, handed.virtual_start, i.mapped) in
    let below : in_window (kernel_physical_end s + 0xC0100000)
        ≡ ltb (kernel_physical_end s) 0x300000 =
      ground arith in
    rw place (
      (loader-translates s back c (kernel_physical_end s + 0xC0100000) i aligned m
        (omega (arith, i.mapped))).1
      ∙ ground (arith, below))
