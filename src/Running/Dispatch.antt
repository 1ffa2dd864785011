-- ===== src/Running/Dispatch.antt =====
-- The way of an interrupt on the running machine, from the controllers through the table.
use cosmo.FrameBuffer.Cursor.{Crtc}
use cosmo.Idt.{InterruptDescriptorTable, construct}
use cosmo.Idt.Gates.{IsGateTo, construct-gates, construct-idtr}
use cosmo.Idt.Lines.{vector}
use cosmo.Kmain.Boot.{Kernel, finished, BootArguments, kernel_main}
use cosmo.Kmain.Ports.{vector-SameChips}
use cosmo.Pic.Chip.{Chip, IsPic, IsReady}
use cosmo.PortIo.{Hardware}
use cosmo.Prelude.{ℕ, ◌<◌, ◌^◌, ◌≡◌, ◌∙◌, sym, ap, arith, some, u32}
use cosmo.Running.{Machine, Deliverable, Reach}
use cosmo.Running.Begin.{finished-Boots, finished-IsBooted}
use cosmo.Running.Invariant.{Reach-IsRunning, only_keyboard}

module _ (start₁ start₂ : Chip) (start : Crtc) (hardware : Hardware) (args : BootArguments)
    (k : Kernel) (pic : IsPic start₁ start₂ hardware) (ready : IsReady start₁ start₂ k.screen.ports)
    (attribute : k.screen.attr_byte < 2 ^ 8) where
  -- The only line that is delivered has the vector 33.
  pub Reach-vector :
      {k' : Kernel} {s : Machine} {n : ℕ}
      → kernel_main hardware args k ≡ some (finished, k')
      → Reach start₁ start₂ k' s
      → Deliverable start₁ start₂ s n
      → vector start₁ start₂ s.kernel.screen.ports n ≡ 33
  Reach-vector {n} e r d =
      let b = finished-IsBooted start₁ start₂ start hardware args k pic ready attribute e in
      let i = Reach-IsRunning start₁ start₂ start b r in
      let line = only_keyboard start₁ start₂ start b i d in
      let v = vector-SameChips start₁ start₂ i.same_chips n ∙ b.vectors n (omega (arith, line)) in
      omega (arith, v, line)

  -- In every state that is reached, the register that the processor loaded is the table's.
  pub Reach-loaded :
      {k' : Kernel} {s : Machine} (isr irq : ℕ → ℕ) (address : ℕ)
      (memory : InterruptDescriptorTable)
      → k.idt ≡ construct isr irq address memory
      → kernel_main hardware args k ≡ some (finished, k')
      → Reach start₁ start₂ k' s
      → s.kernel.loaded_idt ≡ record { limit = 2047; base = u32 address }
  Reach-loaded {k'} {s} isr irq address memory table e r =
      let boots = finished-Boots start₁ start₂ start hardware args k pic ready attribute e in
      let b = finished-IsBooted start₁ start₂ start hardware args k pic ready attribute e in
      let i = Reach-IsRunning start₁ start₂ start b r in
      let same : boots.kernel ≡ k' = cc (sym boots.returns ∙ e) in
      i.same_loaded
      ∙ sym (ap (λ (x : Kernel). x.loaded_idt) same)
      ∙ boots.loaded_idt
      ∙ ap (λ (t : InterruptDescriptorTable). t.idtr) table
      ∙ construct-idtr isr irq address memory

  -- After `kernel_main` halted at its end, with initialized controllers, an attribute of one byte
  -- and the constructor's interrupt table before it, and an entry point of 32 bits for line 1: in
  -- every state that is reached, the vector of each interrupt that the controllers let through leads
  -- by its gate to that entry point.
  pub Reach-IsGateTo :
      {k' : Kernel} {s : Machine} {n : ℕ} (isr irq : ℕ → ℕ) (address : ℕ)
      (memory : InterruptDescriptorTable)
      → k.idt ≡ construct isr irq address memory
      → irq 1 < 2 ^ 32
      → kernel_main hardware args k ≡ some (finished, k')
      → Reach start₁ start₂ k' s
      → Deliverable start₁ start₂ s n
      → IsGateTo (irq 1) (s.kernel.idt.idt_entries (vector start₁ start₂ s.kernel.screen.ports n))
  Reach-IsGateTo {k'} {s} {n} isr irq address memory table l e r d =
      let boots = finished-Boots start₁ start₂ start hardware args k pic ready attribute e in
      let b = finished-IsBooted start₁ start₂ start hardware args k pic ready attribute e in
      let i = Reach-IsRunning start₁ start₂ start b r in
      let same : boots.kernel ≡ k' = cc (sym boots.returns ∙ e) in
      let idt : s.kernel.idt ≡ construct isr irq address memory =
        i.same_idt ∙ sym (ap (λ (x : Kernel). x.idt) same) ∙ boots.idt ∙ table in
      let at_33 = Reach-vector e r d in
      rw (idt, at_33) ((construct-gates isr irq address 33 memory (omega arith) l).1 (omega arith))
