-- ===== src/Running/Begin.antt =====
-- The end of the start is where the running machine begins.
use mathlib.Core.Path.{subst}
use cosmo.Boot.Multiboot.{bootloader_magic, info_memory, info_flags}
use cosmo.FrameBuffer.Cursor.{Crtc}
use cosmo.Kmain.Boot.{Kernel, finished, BootArguments, kernel_main}
use cosmo.Kmain.Boots.{Boots, kernel_main-Boots}
use cosmo.Kmain.Halts.{bad_magic-Rejects, no_memory_info-Rejects}
use cosmo.Pic.Chip.{Chip, IsPic, IsReady}
use cosmo.PortIo.{Hardware}
use cosmo.Prelude.{◌≢◌, ◌<◌, ◌^◌, ◌≡◌, ◌==◌, Bool-cases, inl, inr, sym, ◌∙◌, arith, bit_and, some}
use cosmo.Running.Invariant.{IsBooted}

module _ (start₁ start₂ : Chip) (start : Crtc) where
  Boots-IsBooted :
      (hardware : Hardware) {args : BootArguments} {k k' : Kernel}
      → Boots start₁ start₂ start args k (kernel_main hardware args k)
      → kernel_main hardware args k ≡ some (finished, k')
      → IsBooted start₁ start₂ start k'
  Boots-IsBooted hardware {k'} b e =
      let same : b.kernel ≡ k' = cc (sym b.returns ∙ e) in
      subst (λ x. IsBooted start₁ start₂ start x) same
        (record {
          in_order = b.in_order;
          enabled = b.interrupts;
          vectors = b.vectors;
          lines = λ n l. ground (arith, b.lines n (omega arith));
        })

module _ (start₁ start₂ : Chip) (start : Crtc) (hardware : Hardware) (args : BootArguments)
    (k : Kernel) (pic : IsPic start₁ start₂ hardware) (ready : IsReady start₁ start₂ k.screen.ports)
    (attribute : k.screen.attr_byte < 2 ^ 8) where
  -- Where `kernel_main` halts at its end, its hand-over was right.
  pub finished-handed_over :
      {k' : Kernel}
      → kernel_main hardware args k ≡ some (finished, k')
      → (args.mboot_magic ≡ bootloader_magic)
        × (bit_and (info_flags k.allocator.memory args.mboot_header) info_memory ≢ 0)
  finished-handed_over {k'} e = elim (Bool-cases (args.mboot_magic == bootloader_magic)) [
    | inl m ↦
        elim (Bool-cases
          (bit_and (info_flags k.allocator.memory args.mboot_header) info_memory == 0)) [
            | inl f ↦ absurd (
                cc
                  (no_memory_info-Rejects start hardware args k attribute (ground arith)
                    (ground arith)).returns)
            | inr f ↦ (ground arith, ground arith)
          ]
    | inr m ↦ absurd (cc (bad_magic-Rejects start hardware args k attribute (ground arith)).returns)
  ]

  pub finished-Boots :
      {k' : Kernel}
      → kernel_main hardware args k ≡ some (finished, k')
      → Boots start₁ start₂ start args k (kernel_main hardware args k)
  finished-Boots e =
      let (magic, flag) = finished-handed_over e in
      kernel_main-Boots start₁ start₂ start hardware args k pic ready attribute magic flag

  pub finished-IsBooted :
      {k' : Kernel}
      → kernel_main hardware args k ≡ some (finished, k')
      → IsBooted start₁ start₂ start k'
  finished-IsBooted e = Boots-IsBooted start₁ start₂ start hardware (finished-Boots e) e
