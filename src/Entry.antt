-- ===== src/Entry.antt =====
-- src/InterruptDescriptorTable/InterruptHandler.nasm: the entry points of the interrupts, which save
-- the registers, call a handler of InterruptHandler.cc and go back. The handler's machine code is a
-- parameter, a program from the state at the call to the one behind it. The two stubs are the same
-- text but for the handler.
pub mod Frame
pub mod Enter
pub mod Context
pub mod Leave
pub mod Sample
mod Tests
use cosmo.Cpu.{
  Cpu, Program, ◌>>◌, mov, mov_imm, push, push_word, push_byte, pop, add, sub, and, store, cli, eax,
  ecx, edx, ebx, ebp, esi, edi, esp, ds, es, fs, gs, cr2,
}
use cosmo.Idt.{IdtEntry}
use cosmo.Idt.Gates.{target}
use cosmo.Memory.{load32, store32}
use cosmo.Prelude.{
  ℕ, ◌+◌, ◌^◌, ◌==◌, ◌&&◌, ◌||◌, leb, if◌then◌else◌, Bool, bit_and, Option, none, some, not32,
  sub32, u16, u32,
}

-- The processor enters an interrupt gate from the kernel's own privilege level: it pushes the flags,
-- the place to go on at, and the error code if the exception has one, and disables the interrupts.
abbrev pub push_error : Option ℕ → Program
push_error none c = c
push_error (some code) c = push_word code c

abbrev pub jump_to : IdtEntry → Program
jump_to gate c = record c {
  cs = gate.cs;
  eip = target gate;
  eflags = bit_and c.eflags (not32 0x200);
}

unfoldable pub take_interrupt : IdtEntry → Option ℕ → Program
take_interrupt gate error c =
    jump_to gate (push_error error (push_word c.eip (push_word c.cs (push_word c.eflags c))))

-- `iret` at the same privilege level.
unfoldable pub iret : Program
iret c = record c {
  eip = load32 c.memory c.esp;
  cs = u16 (load32 c.memory (c.esp + 4));
  eflags = load32 c.memory (c.esp + 8);
  esp = u32 (c.esp + 12);
}

-- The exceptions whose entry point is an `ISR_ERRCODE`.
abbrev pub has_error_code : ℕ → Bool
has_error_code n = n == 8 || leb 10 n && leb n 14 || n == 17 || n == 30

-- The registers that both stubs push.
unfoldable pub save_registers : Program
save_registers = do
  push eax
  push ecx
  push edx
  push ebx
  push ebp
  push esi
  push edi
  mov ebp ds
  push ebp
  mov ebp es
  push ebp
  mov ebp fs
  push ebp
  mov ebp gs
  push ebp

unfoldable pub load_segments : Program
load_segments = do
  mov_imm ebp 0x10
  mov ds ebp
  mov es ebp
  mov fs ebp
  mov gs ebp
  mov ebp cr2
  push ebp

-- `mov ebx, esp`, the alignment of the stack, and the handler's argument.
unfoldable pub pass_context : Program
pass_context = do mov ebx esp; sub esp 4; and esp 0xFFFFFFF0; store esp ebx

unfoldable pub restore_registers : Program
restore_registers = do
  mov esp ebx
  pop ebp
  mov cr2 ebp
  pop ebp
  mov gs ebp
  pop ebp
  mov fs ebp
  pop ebp
  mov es ebp
  pop ebp
  mov ds ebp
  pop edi
  pop esi
  pop ebp
  pop ebx
  pop edx
  pop ecx
  pop eax
  add esp 8
  iret

-- An entry point up to the call of its handler: `irq%1`, and `isr%1` by the two macros.
abbrev pub irq_enter : ℕ → Program
irq_enter n = do cli; push_byte 0; push_byte n; save_registers; load_segments; pass_context

abbrev pub isr_enter : ℕ → Program
isr_enter n =
    if has_error_code n
    then (do cli; push_byte n; save_registers; load_segments; pass_context)
    else do cli; push_byte 0; push_byte n; save_registers; load_segments; pass_context

unfoldable pub irq_entry : Program → ℕ → Program
irq_entry irq_handler n = do irq_enter n; irq_handler; restore_registers

unfoldable pub isr_entry : Program → ℕ → Program
isr_entry isr_handler n = do isr_enter n; isr_handler; restore_registers
