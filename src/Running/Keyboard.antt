-- ===== src/Running/Keyboard.antt =====
-- The keyboard on the machine that `kernel_main` started.
use cosmo.FrameBuffer.Cursor.{Crtc}
use cosmo.FrameBuffer.Draws.{IsShown}
use cosmo.FrameBuffer.Refine.{print_chars_refines}
use cosmo.FrameBuffer.Terminal.{terminal, type_text}
use cosmo.Interrupts.Keys.{scan_code, acknowledged, irq_handler-key}
use cosmo.Irq.{InterruptContext}
use cosmo.Keyboard.{print_ascii_char}
use cosmo.Kmain.Boot.{Kernel, finished, BootArguments, kernel_main}
use cosmo.Kmain.Ports.{masked-SameChips}
use cosmo.Pic.Chip.{Chip, IsPic, IsReady}
use cosmo.PortIo.{Hardware}
use cosmo.Prelude.{ℕ, ◌<◌, ◌^◌, ◌≡◌, refl, ap, ◌∙◌, arith, some, ◌∷◌}
use cosmo.Running.{Machine, Deliverable, Step, interrupt, Reach}
use cosmo.Running.Begin.{finished-IsBooted}
use cosmo.Running.Typed.{keys, typed-print_chars}
use cosmo.Running.Invariant.{Reach-IsRunning, only_keyboard}

module _ (start₁ start₂ : Chip) (start : Crtc) (hardware : Hardware) (args : BootArguments)
    (k : Kernel) (pic : IsPic start₁ start₂ hardware) (ready : IsReady start₁ start₂ k.screen.ports)
    (attribute : k.screen.attr_byte < 2 ^ 8) where
  -- After `kernel_main` halted at its end, with initialized controllers and an attribute of one
  -- byte before it, the only interrupts that the controllers ever let through are the keyboard's.
  pub Reach-only_keyboard :
      {k' : Kernel} {s : Machine} {n : ℕ}
      → kernel_main hardware args k ≡ some (finished, k')
      → Reach start₁ start₂ k' s
      → Deliverable start₁ start₂ s n
      → n ≡ 1
  Reach-only_keyboard e r d =
      let b = finished-IsBooted start₁ start₂ start hardware args k pic ready attribute e in
      only_keyboard start₁ start₂ start b (Reach-IsRunning start₁ start₂ start b r) d

  -- After `kernel_main` halted at its end, with initialized controllers and an attribute of one
  -- byte before it, the keyboard is never lost: in every state that is reached, its interrupt can be
  -- delivered and the handler returns, whatever the ports read and the context holds besides.
  pub Reach-answers :
      {k' : Kernel} {s : Machine}
      → kernel_main hardware args k ≡ some (finished, k')
      → Reach start₁ start₂ k' s
      → (now : Hardware) (int_context : InterruptContext) → int_context.int_no ≡ 1
      → (t : Machine) × Step start₁ start₂ s t × (t.codes ≡ scan_code now s.kernel.screen ∷ s.codes)
  Reach-answers {k'} {s} e r now int_context line =
      let b = finished-IsBooted start₁ start₂ start hardware args k pic ready attribute e in
      let i = Reach-IsRunning start₁ start₂ start b r in
      let fb = s.kernel.screen in
      let same = masked-SameChips start₁ start₂ i.same_chips 1 in
      let d : Deliverable start₁ start₂ s int_context.int_no = record {
        is_line = omega arith;
        unmasked = rw line (same ∙ b.lines 1 (omega arith));
        cascaded = λ l. absurd (omega arith);
        acknowledged = i.none_open;
        enabled = i.enabled;
      } in
      let step =
        interrupt now int_context s.kernel.log_buffer
          (print_ascii_char (scan_code now fb) (acknowledged now fb)) d
          (irq_handler-key now int_context s.kernel.log_buffer fb line) in
      (_, step, rw line refl)

  -- After `kernel_main` halted at its end, with initialized controllers and an attribute of one
  -- byte before it, the screen is always in order. It shows what a terminal shows that begins as the
  -- screen at the end of the start and is typed the characters of the keys' scan codes, in the order
  -- in which they were read.
  pub Reach-display :
      {k' : Kernel} {s : Machine}
      → kernel_main hardware args k ≡ some (finished, k')
      → Reach start₁ start₂ k' s
      → IsShown start s.kernel.screen
        × (terminal s.kernel.screen ≡ type_text (keys s.codes) (terminal k'.screen))
  Reach-display {k'} {s} e r =
      let b = finished-IsBooted start₁ start₂ start hardware args k pic ready attribute e in
      let i = Reach-IsRunning start₁ start₂ start b r in
      (
        i.in_order,
        ap terminal i.display
            ∙ ap terminal (typed-print_chars s.codes k'.screen)
            ∙ print_chars_refines (keys s.codes) k'.screen b.in_order.on_screen,
      )
