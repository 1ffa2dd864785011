-- ===== src/Entry/Leave.antt =====
-- The way back from a handler.
use cosmo.Cpu.{Cpu, Program, pop}
use cosmo.Cpu.Stack.{Holds, Holds_ext, load32-Holds}
use cosmo.Entry.{take_interrupt, irq_enter, irq_entry, iret, restore_registers}
use cosmo.Entry.Enter.{irq_enter-IsCalled}
use cosmo.Idt.{IdtEntry}
use cosmo.Entry.Frame.{IsCpu, frame}
use cosmo.Memory.{load8, load32}
use cosmo.Prelude.{ℕ, ◌+◌, ◌*◌, ◌^◌, ◌<◌, ◌≤◌, ◌≡◌, arith, get_or, none, u16}

-- The program goes on where it was interrupted, with the registers and the flags that it had.
pub record Resumes (c d : Cpu) : Type 0 where
  pub same_eax : d.eax ≡ c.eax
  pub same_ecx : d.ecx ≡ c.ecx
  pub same_edx : d.edx ≡ c.edx
  pub same_ebx : d.ebx ≡ c.ebx
  pub same_ebp : d.ebp ≡ c.ebp
  pub same_esi : d.esi ≡ c.esi
  pub same_edi : d.edi ≡ c.edi
  pub same_esp : d.esp ≡ c.esp
  pub same_ds : d.ds ≡ c.ds
  pub same_es : d.es ≡ c.es
  pub same_fs : d.fs ≡ c.fs
  pub same_gs : d.gs ≡ c.gs
  pub same_cs : d.cs ≡ c.cs
  pub same_cr2 : d.cr2 ≡ c.cr2
  pub same_eip : d.eip ≡ c.eip
  pub same_eflags : d.eflags ≡ c.eflags

restore_registers-Resumes :
    (c d : Cpu) (n error : ℕ)
    → IsCpu c
    → Holds d.memory d.ebx (frame c n error)
    → d.ebx + 68 ≡ c.esp
    → Resumes c (restore_registers d)
unfolding restore_registers pop iret
restore_registers-Resumes c d n error i h s =
    let word = λ (k b : ℕ) (l : k < 17) (e : b ≡ d.ebx + 4 * k).
      load32-Holds d.memory d.ebx (frame c n error) k b h l e in
    let segment =
      λ (k b : ℕ) (l : k < 17) (e : b ≡ d.ebx + 4 * k) (f : get_or (frame c n error) k 0 < 2 ^ 16).
        let low : u16 (load32 d.memory b) ≡ get_or (frame c n error) k 0 =
          omega (arith, word k b l e) in
        low in
    record {
      same_eax = word 11 _ (omega arith) (omega (arith, i.esp_fits));
      same_ecx = word 10 _ (omega arith) (omega (arith, i.esp_fits));
      same_edx = word 9 _ (omega arith) (omega (arith, i.esp_fits));
      same_ebx = word 8 _ (omega arith) (omega (arith, i.esp_fits));
      same_ebp = word 7 _ (omega arith) (omega (arith, i.esp_fits));
      same_esi = word 6 _ (omega arith) (omega (arith, i.esp_fits));
      same_edi = word 5 _ (omega arith) (omega (arith, i.esp_fits));
      same_esp = omega (arith, i.esp_fits);
      same_ds = segment 4 _ (omega arith) (omega (arith, i.esp_fits)) i.ds_fits;
      same_es = segment 3 _ (omega arith) (omega (arith, i.esp_fits)) i.es_fits;
      same_fs = segment 2 _ (omega arith) (omega (arith, i.esp_fits)) i.fs_fits;
      same_gs = segment 1 _ (omega arith) (omega (arith, i.esp_fits)) i.gs_fits;
      same_cs = segment 15 _ (omega arith) (omega (arith, i.esp_fits)) i.cs_fits;
      same_cr2 = word 0 _ (omega arith) (omega arith);
      same_eip = word 14 _ (omega arith) (omega (arith, i.esp_fits));
      same_eflags = word 16 _ (omega arith) (omega (arith, i.esp_fits));
    }

-- What the compiler's calling convention keeps over the call of a handler: ebx, and the caller's
-- frame on the stack.
pub record KeepsFrame (before after : Cpu) : Type 0 where
  pub same_base : after.ebx ≡ before.ebx
  pub same_frame :
      (k : ℕ) → k < 68 → load8 after.memory (before.ebx + k) ≡ load8 before.memory (before.ebx + k)

-- On a stack with 128 bytes left, with registers of their widths, and for a number below 128: where
-- the handler's call keeps ebx and the frame, the interrupted program goes on behind the entry point
-- of a line with the registers, the flags and the stack that it had, whatever else the handler does
-- to the processor and the memory.
pub irq_entry-Resumes :
    (handler : Program) (gate : IdtEntry) (n : ℕ) (c : Cpu)
    → IsCpu c
    → 128 ≤ c.esp
    → n < 128
    → let d = irq_enter n (take_interrupt gate none c) in
      KeepsFrame d (handler d) → Resumes c (irq_entry handler n (take_interrupt gate none c))
unfolding irq_entry
irq_entry-Resumes handler gate n c i l b keeps =
    let d = irq_enter n (take_interrupt gate none c) in
    let called = irq_enter-IsCalled gate n c i l b in
    let words =
      Holds_ext d.memory (handler d).memory d.ebx (frame c n 0) keeps.same_frame
        called.on_stack.words in
    restore_registers-Resumes c (handler d) n 0 i (rw keeps.same_base words)
      (omega (arith, called.on_stack.size, keeps.same_base))
