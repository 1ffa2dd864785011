-- ===== src/Running/Frames.antt =====
-- The clients of the allocator on the machine that `kernel_main` started.
use mathlib.Core.Path.{subst}
use cosmo.Boot.Multiboot.{info_mem_upper}
use cosmo.FrameBuffer.Cursor.{Crtc}
use cosmo.Kmain.Boot.{Kernel, finished, BootArguments, kernel_desc, kernel_main}
use cosmo.Pic.Chip.{Chip, IsPic, IsReady}
use cosmo.PortIo.{Hardware}
use cosmo.Prelude.{ℕ, ◌+◌, ◌*◌, ◌<◌, ◌≤◌, ◌^◌, ◌≡◌, ◌≢◌, ◌∙◌, sym, ap, some, [], u32}
use cosmo.Running.Begin.{finished-Boots}
use cosmo.Vmem.Allocator.{PhysicalFrameAllocator, kilobytes_to_frames}
use cosmo.Vmem.Allocator.Available.{entries}
use cosmo.Vmem.Allocator.Client.{Client, Reach}
use cosmo.Vmem.Allocator.Reserved.{IsReserved}
use cosmo.Vmem.Allocator.Start.{started, initial_bit, map_start, map_end}
use cosmo.Vmem.Allocator.Started.{init-IsReserved}

-- The size of memory in KB, as the boot loader tells it.
abbrev pub memory_size : BootArguments → Kernel → ℕ
memory_size args k = u32 (1024 + info_mem_upper k.allocator.memory args.mboot_header)

abbrev pub newcomer : Kernel → Client
newcomer k = record { allocator = k.allocator; held = [] }

-- The memory map ends below the bitmap that `Init` is about to lay out.
abbrev pub IsBelow : BootArguments → Kernel → Type 0
IsBelow args k =
    let a = k.allocator in
    let end = args.kernel_physical_end in
    let size = memory_size args k in
    let first = map_start a end size (kernel_desc args) args.mboot_header in
    let last = map_end a end size (kernel_desc args) args.mboot_header in
    first + 24 * entries first last ≤ (started a end size (kernel_desc args)).pmmap

module _ (start₁ start₂ : Chip) (start : Crtc) (hardware : Hardware) (args : BootArguments)
    (k : Kernel) (pic : IsPic start₁ start₂ hardware) (ready : IsReady start₁ start₂ k.screen.ports)
    (attribute : k.screen.attr_byte < 2 ^ 8) where
  -- After `kernel_main` halted at its end, with initialized controllers and an attribute of one byte
  -- before it, an information structure that is not null, one frame of memory at least, a memory map
  -- below the bitmap, and a kernel that ends below 2^32 and not before its start, and whatever calls
  -- a client then makes: the frames that the allocator's `Init` left used, the kernel's among them,
  -- stay used. The frames that the client holds are distinct, not frame 0, below the limit, marked
  -- as used, and were free after `Init`.
  pub kernel_main-IsReserved :
      {k' : Kernel} {c : Client}
      → kernel_main hardware args k ≡ some (finished, k')
      → args.mboot_header ≢ 0
      → 0 < kilobytes_to_frames (memory_size args k)
      → IsBelow args k
      → args.kernel_physical_start ≤ args.kernel_physical_end
      → args.kernel_physical_end < 2 ^ 32
      → Reach (newcomer k') c
      → IsReserved
          (initial_bit k.allocator args.kernel_physical_end
            (memory_size args k)
            (kernel_desc args)
            args.mboot_header)
          c
  kernel_main-IsReserved {k'} {c} e given some_frames below order fits r =
      let boots = finished-Boots start₁ start₂ start hardware args k pic ready attribute e in
      let same : boots.kernel ≡ k' = cc (sym boots.returns ∙ e) in
      let allocator = sym (ap (λ (x : Kernel). x.allocator) same) ∙ boots.allocator in
      init-IsReserved k.allocator args.kernel_physical_end (memory_size args k) (kernel_desc args)
        args.mboot_header given some_frames below order fits
        (subst (λ (a : PhysicalFrameAllocator). Reach (record { allocator = a; held = [] }) c)
          allocator r)
