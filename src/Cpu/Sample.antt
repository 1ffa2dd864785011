-- ===== src/Cpu/Sample.antt =====
-- A processor for the tests of several modules.
use cosmo.Cpu.{Cpu}
use cosmo.Memory.{Memory}

abbrev pub program : Memory → Cpu
program m = record {
  eax = 0x2BADB002;
  ecx = 2;
  edx = 3;
  ebx = 0x10000;
  ebp = 5;
  esi = 6;
  edi = 7;
  esp = 0xC0200000;
  ds = 0x10;
  es = 0x20;
  fs = 0x18;
  gs = 0x28;
  ss = 0x10;
  cs = 0x08;
  cr0 = 0x11;
  cr2 = 0;
  cr3 = 0;
  cr4 = 0;
  eip = 0xC0100123;
  eflags = 0x246;
  gdtr = record { limit = 39; base = 0xC0106000 };
  idtr = record { limit = 2047; base = 0xC0105000 };
  memory = m;
}
