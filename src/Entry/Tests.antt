-- ===== src/Entry/Tests.antt =====
-- An interrupt of the keyboard's line at a sample state, with a handler that changes registers and
-- writes to the video memory.
use cosmo.Cpu.{Cpu, Program}
use cosmo.Cpu.Sample
use cosmo.Entry.{take_interrupt, irq_enter, irq_entry}
use cosmo.Entry.Enter.{irq_enter-IsCalled}
use cosmo.Entry.Frame.{IsCpu}
use cosmo.Entry.Sample.{program-IsCpu}
use cosmo.Entry.Leave.{KeepsFrame, Resumes, irq_entry-Resumes}
use cosmo.Idt.{IdtEntry, gate}
use cosmo.Memory.{store32, load8-store32_ne}
use cosmo.Prelude.{◌+◌, refl, ap, arith, none, inl, u8}

abbrev program : Cpu
program = Sample.program (λ k. k)

abbrev key_gate : IdtEntry
key_gate = gate 0xC0101000 0x08 0x8E

abbrev handler : Program
handler c = record c { eax = 99; ecx = 98; edx = 97; memory = store32 c.memory 0xC0300000 7 }

fits : IsCpu program
fits = program-IsCpu (λ k. k)

abbrev called : Cpu
called = irq_enter 1 (take_interrupt key_gate none program)

keeps : KeepsFrame called (handler called)
keeps =
    let c = irq_enter-IsCalled key_gate 1 program fits (omega arith) (omega arith) in
    record {
      same_base = refl;
      same_frame = λ k l. ap u8 (
          load8-store32_ne called.memory 0xC0300000 7 (called.ebx + k)
            (inl (omega (arith, c.on_stack.size))));
    }

irq_entry-Resumes_example :
    Resumes program (irq_entry handler 1 (take_interrupt key_gate none program))
irq_entry-Resumes_example =
    irq_entry-Resumes handler key_gate 1 program fits (omega arith) (omega arith) keeps
