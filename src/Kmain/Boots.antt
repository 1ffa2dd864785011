-- ===== src/Kmain/Boots.antt =====
-- The start that goes through.
use cosmo.Boot.Multiboot.{bootloader_magic, info_memory, info_flags, info_mem_upper}
use cosmo.FrameBuffer.Cursor.{Crtc}
use cosmo.FrameBuffer.Draws.{IsShown, Draws-trans}
use cosmo.Idt.Lines.{vector}
use cosmo.Kmain.{init_gdt}
use cosmo.Kmain.Boot.{
  Kernel, Halt, finished, BootArguments, kernel_desc, init_idt, load_gdt, init_pic_ports,
  init_physical_frame_allocator, initialize, verify_memory, kernel_main,
}
use cosmo.Kmain.Halts.{at_memory, at_memory-Speaks, kernel_main-at_memory}
use cosmo.Kmain.Lines.{init_pic-masked}
use cosmo.Kmain.Messages.{
  memory_found, gdt_start, gdt_done, idt_start, idt_done, pic_start, pic_done, allocator_start,
  allocator_done,
}
use cosmo.Kmain.Ports.{
  vector-SameChips, init_pic-IsShown, Quiet-SameChips, IsReady-SameChips, masked-SameChips,
}
use cosmo.Kmain.Speaks.{said, report-said, Speaks, Speaks-trans, said-Speaks}
use cosmo.Logger.Format.{info}
use cosmo.Pic.Chip.{Chip, IsPic, IsReady}
use cosmo.Pic.Masks.{masked}
use cosmo.PortIo.{Hardware}
use cosmo.Prelude.{
  ℕ, ◌+◌, ◌≤◌, ◌<◌, ◌^◌, ◌≡◌, ◌≢◌, ◌==◌, ltb, refl, ◌∙◌, arith, bit_and, true, false, if◌then◌else◌,
  Option, some, u32, List,
}
use cosmo.Vmem.Allocator.{init}

-- The kernels at the four set-ups.
abbrev pub before_gdt : Kernel → Kernel
before_gdt k = said info gdt_start (said info memory_found k)

abbrev pub before_idt : Kernel → Kernel
before_idt k = said info idt_start (said info gdt_done (load_gdt k))

abbrev pub before_pic : Kernel → Kernel
before_pic k = said info pic_start (said info idt_done (init_idt k))

abbrev pub before_allocator : Hardware → Kernel → Kernel
before_allocator hardware k =
    said info allocator_start (said info pic_done (init_pic_ports hardware k))

abbrev pub booted : Hardware → BootArguments → Kernel → Kernel
booted hardware args k = said info allocator_done (
    init_physical_frame_allocator args.mboot_header (kernel_desc args)
      (before_allocator hardware (before_pic (before_idt (before_gdt k)))))

module _ (start : Crtc) where
  -- Two lines of the log.
  pub said_twice-Speaks :
      (m n : List ℕ) (k : Kernel)
      → IsShown start k.screen
      → Speaks start k (said info n (said info m k))
  said_twice-Speaks m n k s =
      let t = said-Speaks start info m k s in
      Speaks-trans t (said-Speaks start info n (said info m k) t.draws.in_order)

module _ (hardware : Hardware) (args : BootArguments) where
  pub initialize-booted :
      (k : Kernel)
      → initialize hardware args (said info memory_found k)
        ≡ some (finished, booted hardware args k)
  unfolding initialize
  initialize-booted k =
      let k₁ = before_gdt k in
      let g₁ = load_gdt k₁ in
      let k₂ = before_idt k₁ in
      let k₃ = before_pic k₂ in
      let p₃ = init_pic_ports hardware k₃ in
      rw
        (
          report-said info gdt_start (said info memory_found k) refl,
          report-said info gdt_done g₁ refl,
          report-said info idt_start (said info gdt_done g₁) refl,
          report-said info idt_done (init_idt k₂) refl,
          report-said info pic_start (said info idt_done (init_idt k₂)) refl,
          report-said info pic_done p₃ refl,
          report-said info allocator_start (said info pic_done p₃) refl,
          report-said info allocator_done
              (init_physical_frame_allocator args.mboot_header (kernel_desc args)
                (before_allocator hardware k₃))
              refl,
        )
        refl

  pub kernel_main-booted :
      (k : Kernel)
      → args.mboot_magic ≡ bootloader_magic
      → bit_and (info_flags k.allocator.memory args.mboot_header) info_memory ≢ 0
      → kernel_main hardware args k ≡ some (finished, booted hardware args (at_memory k))
  unfolding verify_memory
  kernel_main-booted k e f =
      let present : (bit_and (info_flags k.allocator.memory args.mboot_header) info_memory == 0)
          ≡ false =
        ground arith in
      rw
        (
          kernel_main-at_memory hardware args k e,
          present,
          report-said info memory_found (at_memory k) refl,
        )
        (initialize-booted (at_memory k))

-- The kernel went through all the set-ups and halted at the end.
pub record Boots (start₁ start₂ : Chip) (start : Crtc) (args : BootArguments) (k : Kernel)
    (result : Option (Halt × Kernel)) : Type 0 where
  pub kernel : Kernel
  pub returns : result ≡ some (finished, kernel)
  pub in_order : IsShown start kernel.screen
  pub behind : (n : ℕ) → 2000 ≤ n → kernel.screen.video_mem n ≡ k.screen.video_mem n
  pub gdt : kernel.gdt ≡ init_gdt k.gdt
  pub idt : kernel.idt ≡ k.idt
  pub interrupts : kernel.interrupts ≡ true
  pub loaded_gdt : kernel.loaded_gdt ≡ kernel.gdt.gdtr
  pub loaded_idt : kernel.loaded_idt ≡ k.idt.idtr
  pub allocator :
      kernel.allocator
      ≡ init k.allocator args.mboot_header args.kernel_physical_end
          (u32 (1024 + info_mem_upper k.allocator.memory args.mboot_header))
          (kernel_desc args)
  pub ready : IsReady start₁ start₂ kernel.screen.ports
  pub lines :
      (n : ℕ)
      → n < 16
      → masked start₁ start₂ kernel.screen.ports n
        ≡ (if n == 1 then 0 else if ltb n 8 then 1 else masked start₁ start₂ k.screen.ports n)
  pub vectors : (n : ℕ) → n < 16 → vector start₁ start₂ kernel.screen.ports n ≡ 32 + n

module _ (start₁ start₂ : Chip) (start : Crtc) (hardware : Hardware) (args : BootArguments) where
  -- Given the boot loader's magic value and the flag of the memory information, initialized
  -- controllers and an attribute of one byte, `kernel_main` halts at its end. It has set up the table
  -- of segments and the allocator, loaded the registers of both tables, enabled the interrupts, unmasked the keyboard's line and masked
  -- the master's other ones, and remapped the sixteen lines to the vectors from 32 on. The slave's
  -- masks and the interrupt table are as they were. The screen is in order, and the cells behind it
  -- are as they were.
  pub kernel_main-Boots :
      (k : Kernel)
      → IsPic start₁ start₂ hardware
      → IsReady start₁ start₂ k.screen.ports
      → k.screen.attr_byte < 2 ^ 8
      → args.mboot_magic ≡ bootloader_magic
      → bit_and (info_flags k.allocator.memory args.mboot_header) info_memory ≢ 0
      → Boots start₁ start₂ start args k (kernel_main hardware args k)
  unfolding init_physical_frame_allocator
  kernel_main-Boots k pic r l e f =
      let k₀ = at_memory k in
      let k₁ = before_gdt k₀ in
      let k₂ = before_idt k₁ in
      let k₃ = before_pic k₂ in
      let p₃ = init_pic_ports hardware k₃ in
      let k₄ = before_allocator hardware k₃ in
      let d₀ = (at_memory-Speaks start k l).draws in
      let d₁ = (said_twice-Speaks start memory_found gdt_start k₀ d₀.in_order).draws in
      let d₂ = (said_twice-Speaks start gdt_done idt_start (load_gdt k₁) d₁.in_order).draws in
      let d₃ = (said_twice-Speaks start idt_done pic_start (init_idt k₂) d₂.in_order).draws in
      let d = Draws-trans d₀ (Draws-trans d₁ (Draws-trans d₂ d₃)) in
      let before = Quiet-SameChips start₁ start₂ d.quiet in
      let ready₃ = IsReady-SameChips start₁ start₂ before r in
      let pic_lem = λ (n : ℕ) (b : n < 16).
        init_pic-masked start₁ start₂ hardware pic n k₃.screen.ports b ready₃ in
      let shown₃ = init_pic-IsShown start hardware k₃.screen d₃.in_order in
      let e₄ = (said_twice-Speaks start pic_done allocator_start p₃ shown₃).draws in
      let e₅ =
        (said-Speaks start info allocator_done
          (init_physical_frame_allocator args.mboot_header (kernel_desc args) k₄)
          e₄.in_order).draws in
      let after_draws = Draws-trans e₄ e₅ in
      let after = Quiet-SameChips start₁ start₂ after_draws.quiet in
      record {
        kernel = booted hardware args k₀;
        returns = kernel_main-booted hardware args k e f;
        in_order = after_draws.in_order;
        behind = λ n b. after_draws.behind n b ∙ d.behind n b;
        gdt = refl;
        idt = refl;
        interrupts = refl;
        loaded_gdt = refl;
        loaded_idt = refl;
        allocator = refl;
        ready = IsReady-SameChips start₁ start₂ after (pic_lem 0 (omega arith)).1;
        lines = λ n b. ground (
          arith,
          masked-SameChips start₁ start₂ after n,
          (pic_lem n b).0,
          masked-SameChips start₁ start₂ before n,
        );
        vectors = λ n b. vector-SameChips start₁ start₂ after n ∙ (pic_lem n b).2;
      }
