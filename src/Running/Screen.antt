-- ===== src/Running/Screen.antt =====
-- What the screen shows from the start of the machine on.
use cosmo.FrameBuffer.Cursor.{Crtc}
use cosmo.FrameBuffer.Draws.{IsShown}
use cosmo.FrameBuffer.Terminal.{terminal, type_text}
use cosmo.Kmain.Boot.{Kernel, finished, BootArguments, kernel_main}
use cosmo.Kmain.Displays.{log_text, boot_messages, greeted, type_text-append, kernel_main-shows}
use cosmo.Pic.Chip.{Chip, IsPic, IsReady}
use cosmo.PortIo.{Hardware}
use cosmo.Prelude.{◌<◌, ◌^◌, ◌≡◌, sym, ap, ◌∙◌, some, ◌++◌}
use cosmo.Running.{Machine, Reach}
use cosmo.Running.Begin.{finished-handed_over}
use cosmo.Running.Keyboard.{Reach-display}
use cosmo.Running.Typed.{keys}

module _ (start₁ start₂ : Chip) (start : Crtc) (hardware : Hardware) (args : BootArguments)
    (k : Kernel) (pic : IsPic start₁ start₂ hardware) (ready : IsReady start₁ start₂ k.screen.ports)
    (attribute : k.screen.attr_byte < 2 ^ 8) where
  finished-shows :
      {k' : Kernel}
      → kernel_main hardware args k ≡ some (finished, k')
      → terminal k'.screen ≡ type_text (log_text boot_messages) (greeted (terminal k.screen))
  finished-shows {k'} e =
      let (magic, flag) =
        finished-handed_over start₁ start₂ start hardware args k pic ready attribute e in
      let (shown, returns, shows) = kernel_main-shows start hardware args k attribute magic flag in
      let same : shown ≡ k' = cc (sym returns ∙ e) in
      ap (λ (x : Kernel). terminal x.screen) (sym same) ∙ shows

  -- After `kernel_main` halted at its end, with initialized controllers and an attribute of one
  -- byte before it, the screen is always in order. It shows what a terminal shows that is cleared and
  -- is typed, from the start of the kernel on, the logo, the twelve lines of the log, and the
  -- characters of the keys' scan codes, in the order in which they were read.
  pub Reach-shows :
      {k' : Kernel} {s : Machine}
      → kernel_main hardware args k ≡ some (finished, k')
      → Reach start₁ start₂ k' s
      → IsShown start s.kernel.screen
        × (terminal s.kernel.screen
            ≡ type_text (log_text boot_messages ++ keys s.codes) (greeted (terminal k.screen)))
  Reach-shows {s} e r =
      let (shown, display) =
        Reach-display start₁ start₂ start hardware args k pic ready attribute e r in
      (
        shown,
        display
            ∙ ap (type_text (keys s.codes)) (finished-shows e)
            ∙ sym (
                type_text-append (log_text boot_messages) (keys s.codes)
                  (greeted (terminal k.screen))),
      )
