-- ===== src/Entry/Context.antt =====
-- What a handler of InterruptHandler.cc finds in the `InterruptContext` that it is passed.
use cosmo.Cpu.{Cpu}
use cosmo.Cpu.Stack.{load32-Holds}
use cosmo.Entry.{take_interrupt, irq_enter, isr_enter}
use cosmo.Entry.Enter.{pushes_error_code, error_code, irq_enter-IsCalled, isr_enter-IsCalled}
use cosmo.Entry.Frame.{IsCpu, IsCalled, frame}
use cosmo.Idt.{IdtEntry}
use cosmo.Irq.{InterruptContext, context_at}
use cosmo.Memory.{load32}
use cosmo.Prelude.{ℕ, ◌+◌, ◌*◌, ◌^◌, ◌<◌, ◌≤◌, ◌≡◌, refl, arith, none, if◌then◌else◌}

-- What the members of `context` hold of the interrupted program: `ds` and `es` each the other's
-- register, and `cs`, `eflags` and `esp` the instruction pointer, the code segment and the flags.
-- Nothing is said of `ss`.
pub record Describes (c : Cpu) (n error : ℕ) (context : InterruptContext) : Type 0 where
  pub int_no : context.int_no ≡ n
  pub err_code : context.err_code ≡ error
  pub eax : context.eax ≡ c.eax
  pub ecx : context.ecx ≡ c.ecx
  pub edx : context.edx ≡ c.edx
  pub ebx : context.ebx ≡ c.ebx
  pub ebp : context.ebp ≡ c.ebp
  pub esi : context.esi ≡ c.esi
  pub edi : context.edi ≡ c.edi
  pub ds : context.ds ≡ c.es
  pub es : context.es ≡ c.ds
  pub fs : context.fs ≡ c.fs
  pub gs : context.gs ≡ c.gs
  pub cr2 : context.cr2 ≡ c.cr2
  pub cs : context.cs ≡ c.eip
  pub eflags : context.eflags ≡ c.cs
  pub esp : context.esp ≡ c.eflags

-- A handler's call with the context behind its argument.
pub record Passes (c : Cpu) (n error : ℕ) (d : Cpu) : Type 0 where
  pub called : IsCalled c n error d
  pub described : Describes c n error (context_at d.memory (load32 d.memory d.esp))

IsCalled-Passes : (c d : Cpu) (n error : ℕ) → IsCalled c n error d → Passes c n error d
IsCalled-Passes c d n error i =
    let word = λ (k : ℕ) (l : k < 17).
      load32-Holds d.memory d.ebx (frame c n error) k (d.ebx + 4 * k) i.on_stack.words l refl in
    record {
      called = i;
      described = rw i.argument (record {
        int_no = word 12 (omega arith);
        err_code = word 13 (omega arith);
        eax = word 11 (omega arith);
        ecx = word 10 (omega arith);
        edx = word 9 (omega arith);
        ebx = word 8 (omega arith);
        ebp = word 7 (omega arith);
        esi = word 6 (omega arith);
        edi = word 5 (omega arith);
        ds = word 3 (omega arith);
        es = word 4 (omega arith);
        fs = word 2 (omega arith);
        gs = word 1 (omega arith);
        cr2 =
            load32-Holds d.memory d.ebx (frame c n error) 0 d.ebx i.on_stack.words (omega arith)
              (omega arith);
        cs = word 14 (omega arith);
        eflags = word 15 (omega arith);
        esp = word 16 (omega arith);
      });
    }

pub enter-Passes :
    (gate : IdtEntry) (n code : ℕ) (c : Cpu)
    → IsCpu c
    → 128 ≤ c.esp
    → n < 32
    → code < 2 ^ 32
    → Passes c n 0 (irq_enter n (take_interrupt gate none c))
      × Passes c n
          (if pushes_error_code n then code else 0)
          (isr_enter n (take_interrupt gate (error_code n code) c))
enter-Passes gate n code c i l b e = (
  IsCalled-Passes c (irq_enter n (take_interrupt gate none c)) n 0
      (irq_enter-IsCalled gate n c i l (omega arith)),
  IsCalled-Passes c (isr_enter n (take_interrupt gate (error_code n code) c)) n
      (if pushes_error_code n then code else 0)
      (isr_enter-IsCalled gate n code c i l (omega arith) e),
)
