-- ===== src/Cpu.antt =====
-- The 32-bit processor, as far as the assembly of the kernel uses it: the registers, and a program
-- for each instruction. A segment register is its selector; what the processor keeps of the
-- descriptor besides, and the faults of a bad one, are not modelled.
pub mod Stack
pub mod Sample
use cosmo.Memory.{Memory, load8, load32, store32}
use cosmo.Prelude.{
  ℕ, ◌+◌, ◌-◌, ◌^◌, ◌*◌, ◌/◌, bit_and, bit_or, ltb, if◌then◌else◌, not32, sub32, u16, u32,
}

pub record TableRegister : Type 0 where
  pub limit : ℕ
  pub base : ℕ

pub record Cpu : Type 0 where
  pub eax : ℕ
  pub ecx : ℕ
  pub edx : ℕ
  pub ebx : ℕ
  pub ebp : ℕ
  pub esi : ℕ
  pub edi : ℕ
  pub esp : ℕ
  pub ds : ℕ
  pub es : ℕ
  pub fs : ℕ
  pub gs : ℕ
  pub ss : ℕ
  pub cs : ℕ
  pub cr0 : ℕ
  pub cr2 : ℕ
  pub cr3 : ℕ
  pub cr4 : ℕ
  pub eip : ℕ
  pub eflags : ℕ
  pub gdtr : TableRegister
  pub idtr : TableRegister
  pub memory : Memory

pub data Register : Type 0 where
  eax ecx edx ebx ebp esi edi esp ds es fs gs ss cr0 cr2 cr3 cr4 : Register

abbrev pub get : Register → Cpu → ℕ
get eax c = c.eax
get ecx c = c.ecx
get edx c = c.edx
get ebx c = c.ebx
get ebp c = c.ebp
get esi c = c.esi
get edi c = c.edi
get esp c = c.esp
get ds c = c.ds
get es c = c.es
get fs c = c.fs
get gs c = c.gs
get ss c = c.ss
get cr0 c = c.cr0
get cr2 c = c.cr2
get cr3 c = c.cr3
get cr4 c = c.cr4

-- A segment register takes the low half.
abbrev pub put : Register → ℕ → Cpu → Cpu
put eax v c = record c { eax = v }
put ecx v c = record c { ecx = v }
put edx v c = record c { edx = v }
put ebx v c = record c { ebx = v }
put ebp v c = record c { ebp = v }
put esi v c = record c { esi = v }
put edi v c = record c { edi = v }
put esp v c = record c { esp = v }
put ds v c = record c { ds = u16 v }
put es v c = record c { es = u16 v }
put fs v c = record c { fs = u16 v }
put gs v c = record c { gs = u16 v }
put ss v c = record c { ss = u16 v }
put cr0 v c = record c { cr0 = v }
put cr2 v c = record c { cr2 = v }
put cr3 v c = record c { cr3 = v }
put cr4 v c = record c { cr4 = v }

abbrev pub Program : Type 0
Program = Cpu → Cpu

infixr 5 ◌>>◌
abbrev pub ◌>>◌ : Program → Program → Program
◌>>◌ p q c = q (p c)

abbrev pub mov : Register → Register → Program
mov to from c = put to (get from c) c

abbrev pub mov_imm : Register → ℕ → Program
mov_imm to v = put to v

unfoldable pub push_word : ℕ → Program
push_word v c = record c { esp = sub32 c.esp 4; memory = store32 c.memory (sub32 c.esp 4) v }

abbrev pub push : Register → Program
push from c = push_word (get from c) c

-- The byte is extended by its sign.
abbrev pub push_byte : ℕ → Program
push_byte v = push_word (if ltb v 128 then v else 2 ^ 32 - 256 + v)

unfoldable pub pop : Register → Program
pop to c = put to (load32 c.memory c.esp) (record c { esp = u32 (c.esp + 4) })

abbrev pub add : Register → ℕ → Program
add to v c = put to (u32 (get to c + v)) c

abbrev pub sub : Register → ℕ → Program
sub to v c = put to (sub32 (get to c) v) c

abbrev pub and : Register → ℕ → Program
and to v c = put to (bit_and (get to c) v) c

abbrev pub or : Register → ℕ → Program
or to v c = put to (bit_or (get to c) v) c

-- `mov [at], from`.
abbrev pub store : Register → Register → Program
store at from c = record c { memory = store32 c.memory (get at c) (get from c) }

-- `mov to, [at + offset]`.
abbrev pub load : Register → Register → ℕ → Program
load to at offset c = put to (load32 c.memory (u32 (get at c + offset))) c

-- Bit 9 of the flags is the interrupt flag.
abbrev pub cli : Program
cli c = record c { eflags = bit_and c.eflags (not32 0x200) }

-- `mov` to the low half of a register.
abbrev pub mov_low : Register → ℕ → Program
mov_low to v c = put to (get to c / 2 ^ 16 * 2 ^ 16 + v) c

-- The six bytes of a table's description: the limit and the base.
abbrev pub table_register_at : Memory → ℕ → TableRegister
table_register_at m a = record {
  limit = load8 m a + load8 m (a + 1) * 2 ^ 8;
  base = load32 m (a + 2);
}

abbrev pub lgdt : Register → Program
lgdt at c = record c { gdtr = table_register_at c.memory (get at c) }

abbrev pub lidt : Register → Program
lidt at c = record c { idtr = table_register_at c.memory (get at c) }

-- `jmp selector:label`, on to the next instruction.
abbrev pub far_jump : ℕ → Program
far_jump selector c = record c { cs = selector }

unfoldable pub ret : Program
ret c = record c { eip = load32 c.memory c.esp; esp = u32 (c.esp + 4) }
