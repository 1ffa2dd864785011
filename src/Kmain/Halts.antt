-- ===== src/Kmain/Halts.antt =====
-- The starts that end early.
use cosmo.Boot.Multiboot.{bootloader_magic, info_memory, info_flags}
use cosmo.FrameBuffer.{FrameBuffer, print_char}
use cosmo.FrameBuffer.Cursor.{Crtc}
use cosmo.FrameBuffer.Draws.{IsShown}
use cosmo.Kmain.Boot.{
  Kernel, Halt, bad_magic, no_memory_info, BootArguments, print_logo, verify_memory, verify_magic,
  kernel_main,
}
use cosmo.Kmain.Messages.{
  verifying_magic, bad_magic_message, magic_found, verifying_memory_info, no_memory_message,
}
use cosmo.Kmain.Speaks.{
  said, report-said, Speaks, Speaks-trans, drawn, said-Speaks, print_logo-Draws,
}
use cosmo.Logger.Format.{prefix, info, error, each}
use cosmo.PortIo.{Hardware}
use cosmo.Prelude.{
  ℕ, ◌<◌, ◌^◌, ◌≡◌, ◌≢◌, ◌==◌, refl, arith, bit_and, true, false, ◌⊎◌, if◌then◌else◌, Bool-cases,
  inl, inr, Option, some, List, ◌++◌,
}

-- The start halts there, and has done nothing but draw, with the error's line last.
pub record Rejects (start : Crtc) (k : Kernel) (halt : Halt) (message : List ℕ)
    (result : Option (Halt × Kernel)) : Type 0 where
  pub kernel : Kernel
  pub returns : result ≡ some (halt, kernel)
  pub speaks : Speaks start k kernel
  pub earlier : FrameBuffer
  pub in_order : IsShown start earlier
  pub last_line : kernel.screen ≡ each print_char (prefix error ++ message) earlier

-- The kernel when the magic value is tested.
abbrev pub at_magic : Kernel → Kernel
at_magic k = said info verifying_magic (record k { screen = print_logo k.screen })

-- The kernel when the memory information is tested.
abbrev pub at_memory : Kernel → Kernel
at_memory k = said info verifying_memory_info (said info magic_found (at_magic k))

module _ (hardware : Hardware) (args : BootArguments) where
  pub kernel_main-at_magic :
      (k : Kernel) → kernel_main hardware args k ≡ verify_magic hardware args (at_magic k)
  unfolding kernel_main
  kernel_main-at_magic k =
      rw (report-said info verifying_magic (record k { screen = print_logo k.screen }) refl) refl

  pub kernel_main-at_memory :
      (k : Kernel)
      → args.mboot_magic ≡ bootloader_magic
      → kernel_main hardware args k ≡ verify_memory hardware args (at_memory k)
  unfolding verify_magic
  kernel_main-at_memory k e =
      let right : (args.mboot_magic == bootloader_magic) ≡ true = ground arith in
      rw
        (
          kernel_main-at_magic k,
          right,
          report-said info magic_found (at_magic k) refl,
          report-said info verifying_memory_info (said info magic_found (at_magic k)) refl,
        )
        refl

module _ (start : Crtc) where
  pub at_magic-Speaks : (k : Kernel) → k.screen.attr_byte < 2 ^ 8 → Speaks start k (at_magic k)
  at_magic-Speaks k l =
      let logo = drawn k (print_logo-Draws start k.screen l) in
      Speaks-trans logo (said-Speaks start info verifying_magic _ logo.draws.in_order)

  pub at_memory-Speaks : (k : Kernel) → k.screen.attr_byte < 2 ^ 8 → Speaks start k (at_memory k)
  at_memory-Speaks k l =
      let s = at_magic-Speaks k l in
      let t = said-Speaks start info magic_found (at_magic k) s.draws.in_order in
      Speaks-trans s
        (Speaks-trans t (said-Speaks start info verifying_memory_info _ t.draws.in_order))

module _ (start : Crtc) (hardware : Hardware) (args : BootArguments) where
  pub bad_magic-Rejects :
      (k : Kernel)
      → k.screen.attr_byte < 2 ^ 8
      → args.mboot_magic ≢ bootloader_magic
      → Rejects start k bad_magic bad_magic_message (kernel_main hardware args k)
  unfolding verify_magic
  bad_magic-Rejects k l e =
      let wrong : (args.mboot_magic == bootloader_magic) ≡ false = ground arith in
      let s = at_magic-Speaks start k l in
      record {
        kernel = said error bad_magic_message (at_magic k);
        returns =
            rw
              (
                kernel_main-at_magic hardware args k,
                wrong,
                report-said error bad_magic_message (at_magic k) refl,
              )
              refl;
        speaks =
            Speaks-trans s
              (said-Speaks start error bad_magic_message (at_magic k) s.draws.in_order);
        earlier = (at_magic k).screen;
        in_order = s.draws.in_order;
        last_line = refl;
      }

  pub no_memory_info-Rejects :
      (k : Kernel)
      → k.screen.attr_byte < 2 ^ 8
      → args.mboot_magic ≡ bootloader_magic
      → bit_and (info_flags k.allocator.memory args.mboot_header) info_memory ≡ 0
      → Rejects start k no_memory_info no_memory_message (kernel_main hardware args k)
  unfolding verify_memory
  no_memory_info-Rejects k l e f =
      let s = at_memory-Speaks start k l in
      record {
        kernel = said error no_memory_message (at_memory k);
        returns =
            rw
              (
                kernel_main-at_memory hardware args k e,
                f,
                report-said error no_memory_message (at_memory k) refl,
              )
              refl;
        speaks =
            Speaks-trans s
              (said-Speaks start error no_memory_message (at_memory k) s.draws.in_order);
        earlier = (at_memory k).screen;
        in_order = s.draws.in_order;
        last_line = refl;
      }

  -- With an attribute of one byte, and without the boot loader's magic value or without the flag of
  -- the memory information, `kernel_main` prints the first of the two errors as its last line and
  -- halts. It has left the tables, the allocator and the interrupts as they were, has sent nothing
  -- but positions of the cursor to the ports, and has left the screen in order and the cells behind
  -- it as they were.
  pub kernel_main-Rejects :
      (k : Kernel)
      → k.screen.attr_byte < 2 ^ 8
      → (args.mboot_magic ≢ bootloader_magic)
        ⊎ (bit_and (info_flags k.allocator.memory args.mboot_header) info_memory ≡ 0)
      → let known = args.mboot_magic == bootloader_magic in
        Rejects start k
          (if known then no_memory_info else bad_magic)
          (if known then no_memory_message else bad_magic_message)
          (kernel_main hardware args k)
  kernel_main-Rejects k l h = elim (Bool-cases (args.mboot_magic == bootloader_magic)) [
    | inl e ↦ rw e (no_memory_info-Rejects k l (ground arith) (ground arith))
    | inr e ↦ rw e (bad_magic-Rejects k l (ground arith))
  ]
