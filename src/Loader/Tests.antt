-- ===== src/Loader/Tests.antt =====
-- A start by a sample image.
use cosmo.Cpu.Sample.{program}
use cosmo.Loader.{Symbols, IsLinked, magic, flags, checksum, loader, start_in_higher_half}
use cosmo.Loader.Arguments.{arguments_at, IsHandedOver, start-IsHandedOver}
use cosmo.Loader.Paging.{IsLoaded, boot_page_directory_lem, translate, in_window, loader-translates}
use cosmo.Memory.{Memory, load32}
use cosmo.Prelude.{
  ◌+◌, ◌-◌, ◌%◌, ◌^◌, ◌≡◌, ◌==◌, ◌||◌, ltb, refl, arith, if◌then◌else◌, some, none, u32,
}

-- The sum that the boot loader tests.
header_sum : u32 (magic + flags + checksum) ≡ 0
header_sum = refl

abbrev symbols : Symbols
symbols = record {
  boot_page_directory = 0xC0105000;
  start_in_higher_half = 0xC0100030;
  stack = 0xC0108000;
  kernel_virtual_end = 0xC010D000;
}

linked : IsLinked symbols
linked = record {
  directory = omega arith;
  bss = omega arith;
  kernel_end = omega arith;
  mapped = omega arith;
}

abbrev image : Memory
image a = if a == 0xC0105000 || a == 0xC0105C00 then 0x83 else 0

loaded : IsLoaded symbols image
unfolding load32
loaded k l = ground (arith, boot_page_directory_lem k)

loader-translates_example :
    let paged = loader symbols (program image) in
    let d = start_in_higher_half symbols 0xC0100080 paged in
    (translate paged 0xC0105000 ≡ (
      if ltb 0xC0105000 0x400000 || in_window 0xC0105000 then some (0xC0105000 % 2 ^ 22) else none))
    × (translate d 0xC0105000
        ≡ (if in_window 0xC0105000 then some (0xC0105000 - 0xC0000000) else none))
loader-translates_example =
    loader-translates symbols 0xC0100080 (program image) 0xC0105000 linked refl loaded (omega arith)

start-IsHandedOver_example :
    let d = start_in_higher_half symbols 0xC0100080 (program image) in
    IsHandedOver symbols (program image) (arguments_at d.memory d.esp)
    × (load32 d.memory d.esp ≡ 0xC0100080)
start-IsHandedOver_example =
    start-IsHandedOver symbols 0xC0100080 (program image) linked (omega arith) (omega arith)
