-- ===== src/Irq.antt =====
-- include/InterruptDescriptorTable/InterruptHandler.h: the numbers of the interrupt lines, and what
-- the assembly entry points push before they call a handler.
use cosmo.Memory.{Memory, load32}
use cosmo.Prelude.{ℕ, ◌+◌}

pub data Irq : Type 0 where
  timer keyboard pic2 com_1 com_2 lpt2 floppy_disk lpt1 real_time_clock : Irq
  general_io1 general_io2 general_io3 general_io4 general_io5 co_processor : Irq
  ide_bus1 ide_bus2 : Irq

-- The value of the enumerator.
abbrev pub number : Irq → ℕ
number timer = 0
number keyboard = 1
number pic2 = 2
number com_1 = 3
number com_2 = 4
number lpt2 = 5
number floppy_disk = 6
number lpt1 = 7
number real_time_clock = 8
number general_io1 = 9
number general_io2 = 10
number general_io3 = 11
number general_io4 = 12
number general_io5 = 13
number co_processor = 14
number ide_bus1 = 15
number ide_bus2 = 16

pub record InterruptContext : Type 0 where
  pub cr2 : ℕ
  pub gs : ℕ
  pub fs : ℕ
  pub ds : ℕ
  pub es : ℕ
  pub edi : ℕ
  pub esi : ℕ
  pub ebp : ℕ
  pub ebx : ℕ
  pub edx : ℕ
  pub ecx : ℕ
  pub eax : ℕ
  pub int_no : ℕ
  pub err_code : ℕ
  pub cs : ℕ
  pub eflags : ℕ
  pub esp : ℕ
  pub ss : ℕ

-- The structure at an address, by the offsets of its members.
abbrev pub context_at : Memory → ℕ → InterruptContext
context_at m a = record {
  cr2 = load32 m a;
  gs = load32 m (a + 4);
  fs = load32 m (a + 8);
  ds = load32 m (a + 12);
  es = load32 m (a + 16);
  edi = load32 m (a + 20);
  esi = load32 m (a + 24);
  ebp = load32 m (a + 28);
  ebx = load32 m (a + 32);
  edx = load32 m (a + 36);
  ecx = load32 m (a + 40);
  eax = load32 m (a + 44);
  int_no = load32 m (a + 48);
  err_code = load32 m (a + 52);
  cs = load32 m (a + 56);
  eflags = load32 m (a + 60);
  esp = load32 m (a + 64);
  ss = load32 m (a + 68);
}
