-- ===== src/Running/Invariant.antt =====
-- What stays as it was at the end of the start, over every interrupt.
use mathlib.Core.Path.{subst}
use cosmo.FrameBuffer.{FrameBuffer}
use cosmo.FrameBuffer.Cursor.{Crtc}
use cosmo.FrameBuffer.Draws.{IsShown, Quiet-keeps}
use cosmo.FrameBuffer.View.{view}
use cosmo.Interrupts.{irq_handler}
use cosmo.Interrupts.Handled.{eois, eois-acknowledged, eois-send_position}
use cosmo.Interrupts.Keys.{
  scan_code, acknowledged, irq_handler-key, acknowledged-IsShown, print_ascii_char-Draws,
  view-print_ascii_char,
}
use cosmo.Idt.Lines.{vector}
use cosmo.Irq.{InterruptContext}
use cosmo.Keyboard.{print_ascii_char}
use cosmo.Kmain.Boot.{Kernel}
use cosmo.Kmain.Ports.{SameChips, Quiet-SameChips, masked-SameChips}
use cosmo.Memory.{Memory}
use cosmo.Pic.Chip.{Chip, chip}
use cosmo.Pic.Masks.{masked}
use cosmo.PortIo.{Hardware}
use cosmo.Prelude.{
  ℕ, ◌+◌, suc, ◌<◌, ◌≡◌, ◌==◌, if◌then◌else◌, ltb, Bool-cases, inl, inr, refl, ap, sym, ◌∙◌, arith,
  true, some, ◌∷◌,
}
use cosmo.Running.{
  Machine, begin, typed, after_irq, Deliverable, Step, interrupt, Reach, begun, later,
}

-- The machine after the keyboard's interrupt.
abbrev pub after_key : Hardware → Machine → Memory → Machine
after_key hardware s m = record {
  kernel = record (s.kernel) {
    screen =
        print_ascii_char (scan_code hardware s.kernel.screen)
          (acknowledged hardware s.kernel.screen);
    log_buffer = m;
  };
  taken = suc s.taken;
  codes = scan_code hardware s.kernel.screen ∷ s.codes;
}

pub after_irq-key :
    {log_buffer : Memory} {screen : FrameBuffer} (hardware : Hardware)
    (int_context : InterruptContext) (s : Machine)
    → int_context.int_no ≡ 1
    → irq_handler hardware int_context s.kernel.log_buffer s.kernel.screen
      ≡ some (log_buffer, screen)
    → after_irq hardware int_context s log_buffer screen ≡ after_key hardware s log_buffer
after_irq-key {log_buffer} {screen} hardware int_context s e r =
    let fb = s.kernel.screen in
    let key = irq_handler-key hardware int_context s.kernel.log_buffer fb e in
    let drawn : screen ≡ print_ascii_char (scan_code hardware fb) (acknowledged hardware fb) = cc in
    let line : (int_context.int_no == 1) ≡ true = ground arith in rw (line, drawn) refl

module _ (start₁ start₂ : Chip) (start : Crtc) where
  -- The start of the kernel is over.
  pub record IsBooted (k : Kernel) : Type 0 where
    pub in_order : IsShown start k.screen
    pub enabled : k.interrupts ≡ true
    pub vectors : (n : ℕ) → n < 16 → vector start₁ start₂ k.screen.ports n ≡ 32 + n
    -- Of the master's lines only the keyboard's is not masked.
    pub lines : (n : ℕ) → n < 8 → masked start₁ start₂ k.screen.ports n ≡ (if n == 1 then 0 else 1)

  pub record IsRunning (k : Kernel) (s : Machine) : Type 0 where
    pub in_order : IsShown start s.kernel.screen
    pub enabled : s.kernel.interrupts ≡ true
    pub same_idt : s.kernel.idt ≡ k.idt
    pub same_loaded : s.kernel.loaded_idt ≡ k.loaded_idt
    pub same_chips : SameChips start₁ start₂ k.screen.ports s.kernel.screen.ports
    pub none_open : eois s.kernel.screen.ports ≡ s.taken
    pub display : view s.kernel.screen ≡ view (typed s.codes k.screen)

  pub only_keyboard :
      {k : Kernel} {s : Machine} {n : ℕ}
      → IsBooted k
      → IsRunning k s
      → Deliverable start₁ start₂ s n
      → n ≡ 1
  only_keyboard {n} b i d =
      let same = masked-SameChips start₁ start₂ i.same_chips in
      elim (Bool-cases (ltb n 8)) [
        | inl e ↦ ground (arith, d.unmasked, same n, b.lines n (ground arith))
        | inr e ↦
            absurd (ground (arith, d.cascaded (ground arith), same 2, b.lines 2 (omega arith)))
      ]

  acknowledged-SameChips :
      (hardware : Hardware) (fb : FrameBuffer)
      → SameChips start₁ start₂ fb.ports (acknowledged hardware fb).ports
  unfolding chip
  acknowledged-SameChips hardware fb = record { same_master = refl; same_slave = refl }

  key-IsRunning :
      {k : Kernel} {s : Machine} (hardware : Hardware) (m : Memory)
      → IsRunning k s
      → IsRunning k (after_key hardware s m)
  unfolding typed
  key-IsRunning {k} {s} hardware m i =
      let fb = s.kernel.screen in
      let code = scan_code hardware fb in
      let told = acknowledged hardware fb in
      let d =
        print_ascii_char-Draws start code told
          (acknowledged-IsShown start hardware fb i.in_order) in
      let before = acknowledged-SameChips hardware fb in
      let after = Quiet-SameChips start₁ start₂ d.quiet in
      record {
        in_order = d.in_order;
        enabled = i.enabled;
        same_idt = i.same_idt;
        same_loaded = i.same_loaded;
        same_chips = record {
          same_master = after.same_master ∙ before.same_master ∙ i.same_chips.same_master;
          same_slave = after.same_slave ∙ before.same_slave ∙ i.same_chips.same_slave;
        };
        none_open =
            Quiet-keeps eois eois-send_position d.quiet
            ∙ eois-acknowledged hardware fb
            ∙ ap suc i.none_open;
        display =
            sym (view-print_ascii_char code told)
            ∙ ap (λ (g : FrameBuffer). view (print_ascii_char code g)) i.display
            ∙ view-print_ascii_char code (typed s.codes k.screen);
      }

  begin-IsRunning : (k : Kernel) → IsBooted k → IsRunning k (begin k)
  unfolding typed
  begin-IsRunning k b = record {
    in_order = b.in_order;
    enabled = b.enabled;
    same_idt = refl;
    same_loaded = refl;
    same_chips = record { same_master = refl; same_slave = refl };
    none_open = refl;
    display = refl;
  }

  Step-IsRunning :
      {k : Kernel} {s t : Machine}
      → IsBooted k
      → IsRunning k s
      → Step start₁ start₂ s t
      → IsRunning k t
  Step-IsRunning {k} {s} b i (interrupt hardware int_context log_buffer screen d e) =
      subst (λ m. IsRunning k m)
        (sym (after_irq-key hardware int_context s (only_keyboard b i d) e))
        (key-IsRunning hardware log_buffer i)

  pub Reach-IsRunning :
      {k : Kernel} {s : Machine} → IsBooted k → Reach start₁ start₂ k s → IsRunning k s
  Reach-IsRunning {k} b begun = begin-IsRunning k b
  Reach-IsRunning b (later r st) = Step-IsRunning b (Reach-IsRunning b r) st
