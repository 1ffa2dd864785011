-- ===== src/Running/Service.antt =====
-- An interrupt on the running machine, from the controllers to the program that it interrupted.
use mathlib.Core.Path.{subst}
use cosmo.Cpu.{Cpu, Program, TableRegister}
use cosmo.Entry.{take_interrupt, irq_enter, irq_entry}
use cosmo.Entry.Context.{enter-Passes}
use cosmo.Entry.Frame.{IsCpu}
use cosmo.Entry.Leave.{KeepsFrame, Resumes, irq_entry-Resumes}
use cosmo.FrameBuffer.Cursor.{Crtc}
use cosmo.Idt.{IdtEntry, IdtRegister, InterruptDescriptorTable, construct}
use cosmo.Idt.Flush.{looked_up}
use cosmo.Idt.Lines.{vector}
use cosmo.Interrupts.{irq_handler}
use cosmo.Interrupts.Keys.{scan_code, acknowledged, irq_handler-key}
use cosmo.Irq.{context_at}
use cosmo.Keyboard.{print_ascii_char}
use cosmo.Kmain.Boot.{Kernel, finished, BootArguments, kernel_main}
use cosmo.Memory.{load32}
use cosmo.Pic.Chip.{Chip, IsPic, IsReady}
use cosmo.PortIo.{Hardware}
use cosmo.Prelude.{
  ℕ, ◌+◌, ◌*◌, ◌<◌, ◌≤◌, ◌^◌, ◌≡◌, ◌∙◌, refl, sym, arith, leb, true, none, some, ◌∷◌, ap, u32, ◌==◌,
  if◌then◌else◌, Option,
}
use cosmo.Running.{Machine, after_irq, Deliverable, Step, interrupt, Reach}
use cosmo.Running.Dispatch.{Reach-IsGateTo, Reach-vector, Reach-loaded}
use cosmo.Running.Keyboard.{Reach-only_keyboard}

-- The gate that the processor reads for a vector, where the register that it has loaded is that of a
-- table at `address`.
abbrev pub read_at : TableRegister → ℕ → (ℕ → IdtEntry) → ℕ → Option IdtEntry
read_at idtr address entries v = if idtr.base == u32 address then looked_up idtr entries v else none

module _ (start₁ start₂ : Chip) where
  -- The processor `c` takes the interrupt of the line `n` that the controllers let through: it finds
  -- a gate to the entry point in the table, the code there calls the handler for a step of the machine, and
  -- the interrupted program goes on, where the handler's code keeps what it is to keep.
  pub record Serves (entry table : ℕ) (s : Machine) (n : ℕ) (now : Hardware) (c : Cpu)
      : Type 0 where
    pub gate : IdtEntry
    pub found :
        read_at c.idtr table s.kernel.idt.idt_entries (vector start₁ start₂ s.kernel.screen.ports n)
        ≡ some gate
    pub jumps : (take_interrupt gate none c).eip ≡ entry
    pub after : Machine
    pub handles :
        let d = irq_enter n (take_interrupt gate none c) in
        irq_handler now
          (context_at d.memory (load32 d.memory d.esp))
          s.kernel.log_buffer
          s.kernel.screen
        ≡ some (after.kernel.log_buffer, after.kernel.screen)
    pub step : Step start₁ start₂ s after
    pub code : after.codes ≡ scan_code now s.kernel.screen ∷ s.codes
    pub resumes :
        (handler : Program)
        → let d = irq_enter n (take_interrupt gate none c) in
          KeepsFrame d (handler d) → Resumes c (irq_entry handler n (take_interrupt gate none c))

module _ (start₁ start₂ : Chip) (start : Crtc) (hardware : Hardware) (args : BootArguments)
    (k : Kernel) (pic : IsPic start₁ start₂ hardware) (ready : IsReady start₁ start₂ k.screen.ports)
    (attribute : k.screen.attr_byte < 2 ^ 8) where
  -- After `kernel_main` halted at its end, with initialized controllers, an attribute of one byte and
  -- the constructor's interrupt table before it, and an entry point of 32 bits for line 1: in every
  -- state that is reached, a processor with the register that the kernel loaded, registers of their
  -- widths and
  -- 128 bytes of stack serves each interrupt that the controllers let through. By the line's gate it
  -- comes to that entry point, which passes `irq_handler` a context for which the handler returns
  -- and makes a step of the machine that reads one scan code. The interrupted program goes on with
  -- its registers, if the handler's code keeps ebx and the frame on the stack.
  pub Reach-Serves :
      {k' : Kernel} {s : Machine} {n : ℕ} (isr irq : ℕ → ℕ) (address : ℕ)
      (memory : InterruptDescriptorTable)
      → k.idt ≡ construct isr irq address memory
      → irq 1 < 2 ^ 32
      → kernel_main hardware args k ≡ some (finished, k')
      → Reach start₁ start₂ k' s
      → Deliverable start₁ start₂ s n
      → (now : Hardware) (c : Cpu) → IsCpu c
      → 128 ≤ c.esp
      → c.idtr.limit ≡ s.kernel.loaded_idt.limit
      → c.idtr.base ≡ s.kernel.loaded_idt.base
      → Serves start₁ start₂ (irq 1) address s n now c
  unfolding take_interrupt
  Reach-Serves {k'} {s} {n} isr irq address memory table l e r d now c fits room limit base =
      let line =
        Reach-only_keyboard start₁ start₂ start hardware args k pic ready attribute e r d in
      let to =
        Reach-IsGateTo start₁ start₂ start hardware args k pic ready attribute isr irq address
          memory table l e r d in
      let v = vector start₁ start₂ s.kernel.screen.ports n in
      let at_33 : v ≡ 33 =
        Reach-vector start₁ start₂ start hardware args k pic ready attribute e r d in
      let gate = s.kernel.idt.idt_entries v in
      let loaded =
        Reach-loaded start₁ start₂ start hardware args k pic ready attribute isr irq address memory
          table e r in
      let size : c.idtr.limit ≡ 2047 = limit ∙ ap (λ (x : IdtRegister). x.limit) loaded in
      let placed : c.idtr.base ≡ u32 address = base ∙ ap (λ (x : IdtRegister). x.base) loaded in
      let there : (c.idtr.base == u32 address) ≡ true = ground arith in
      let inside : leb (v * 8 + 7) c.idtr.limit ≡ true = ground arith in
      let entered = irq_enter n (take_interrupt gate none c) in
      let passed = (enter-Passes gate n 0 c fits room (omega (arith, line)) (omega arith)).0 in
      let context = context_at entered.memory (load32 entered.memory entered.esp) in
      let number : context.int_no ≡ 1 = passed.described.int_no ∙ line in
      let fb = s.kernel.screen in
      let told = print_ascii_char (scan_code now fb) (acknowledged now fb) in
      let handled = irq_handler-key now context s.kernel.log_buffer fb number in
      record {
        gate = gate;
        found = rw (there, inside) refl;
        jumps = to.to;
        after = after_irq now context s s.kernel.log_buffer told;
        handles = handled;
        step =
            interrupt now context s.kernel.log_buffer told
              (subst (λ (x : ℕ). Deliverable start₁ start₂ s x) (sym passed.described.int_no) d)
              handled;
        code = rw number refl;
        resumes = λ handler keeps.
            irq_entry-Resumes handler gate n c fits room (omega (arith, line)) keeps;
      }
