-- ===== src/Running/Tests.antt =====
-- The sample kernel, started, and one key after the start.
use cosmo.FrameBuffer.Draws.{IsShown}
use cosmo.FrameBuffer.Terminal.{terminal, type_text}
use cosmo.Running.Typed.{keys}
use cosmo.Interrupts.Keys.{scan_code}
use cosmo.Irq.{InterruptContext}
use cosmo.Kmain.Boot.{Kernel, kernel_main}
use cosmo.Kmain.Boots.{Boots, kernel_main-Boots}
use cosmo.Kmain.Sample.{
  isr, irq, cleared, fresh, ports, ports-IsPic, started-IsReady, kernel, registers, arguments,
  memory_flag,
}
use cosmo.PortIo.{Hardware}
use cosmo.Prelude.{ℕ, ap, sym, ◌∙◌, ◌≢◌, ◌≡◌, refl, arith, ◌∷◌, ◌++◌, []}
use cosmo.Running.{Machine, begin, Deliverable, Step, interrupt, begun, later}
use cosmo.Cpu.Sample.{program}
use cosmo.Entry.Sample.{program-IsCpu}
use cosmo.Idt.{IdtRegister}
use cosmo.Running.Dispatch.{Reach-loaded}
use cosmo.Running.Service.{Serves, Reach-Serves}
use cosmo.Running.Frames.{memory_size, newcomer, kernel_main-IsReserved}
use cosmo.Libc.Str.{memset}
use cosmo.Memory.{load32, store32}
use cosmo.Kmain.Boot.{kernel_desc}
use cosmo.Vmem.Allocator.{
  PhysicalFrameAllocator, alloc_frame, is_aligned, kilobytes_to_frames, physical_to_virtual,
  init_bitmap, init, init_region, init_available_regions, deinit_kernel, free_region, free_frames,
  available_from, init_frames,
}
use cosmo.Vmem.Allocator.Client.{Client, take, here, next}
use cosmo.Vmem.Allocator.Reserved.{IsReserved}
use cosmo.Vmem.Allocator.Start.{initial_bit}
use cosmo.Vmem.Bitmap.{bitmap_set, bitmap_unset, bitmap_first_unset}
use cosmo.Running.Keyboard.{Reach-only_keyboard, Reach-answers}
use cosmo.Running.Screen.{Reach-shows}
use cosmo.Kmain.Displays.{log_text, boot_messages, greeted}

abbrev boots :
    Boots fresh fresh registers
      (arguments 0x2BADB002)
      kernel
      (kernel_main ports (arguments 0x2BADB002) kernel)
boots =
    kernel_main-Boots fresh fresh registers ports (arguments 0x2BADB002) kernel ports-IsPic
      started-IsReady (omega arith) refl memory_flag

abbrev started : Kernel
started = boots.kernel

abbrev key : ℕ → Hardware
key code h port = code

abbrev context : InterruptContext
context = record {
  cr2 = 0;
  gs = 0x10;
  fs = 0x10;
  ds = 0x10;
  es = 0x10;
  edi = 0;
  esi = 0;
  ebp = 0;
  ebx = 0;
  edx = 0;
  ecx = 0;
  eax = 0;
  int_no = 1;
  err_code = 33;
  cs = 8;
  eflags = 0x202;
  esp = 0;
  ss = 0x10;
}

Reach-answers_example :
    (t : Machine) × Step fresh fresh (begin started) t
    × (t.codes ≡ scan_code (key 0x1E) started.screen ∷ [])
Reach-answers_example =
    Reach-answers fresh fresh registers ports (arguments 0x2BADB002) kernel ports-IsPic
      started-IsReady (omega arith) boots.returns begun (key 0x1E) context refl

abbrev answered :
    (t : Machine) × Step fresh fresh (begin started) t
    × (t.codes ≡ scan_code (key 0x1E) started.screen ∷ [])
answered =
    Reach-answers fresh fresh registers ports (arguments 0x2BADB002) kernel ports-IsPic
      started-IsReady (omega arith) boots.returns begun (key 0x1E) context refl

-- The machine after the key `a`.
abbrev pressed : Machine
pressed = answered.0

Reach-shows_example :
    IsShown registers pressed.kernel.screen
    × (terminal pressed.kernel.screen
        ≡ type_text
            (log_text boot_messages ++ keys pressed.codes)
            (greeted (terminal kernel.screen)))
Reach-shows_example =
    Reach-shows fresh fresh registers ports (arguments 0x2BADB002) kernel ports-IsPic
      started-IsReady (omega arith) boots.returns (later begun answered.1)

delivered : {s t : Machine} → Step fresh fresh s t → (n : ℕ) × Deliverable fresh fresh s n
delivered (interrupt hardware int_context log_buffer screen d e) = (int_context.int_no, d)

-- The line of the interrupt that was delivered.
abbrev line : ℕ
line = (delivered answered.1).0

Reach-only_keyboard_example : line ≡ 1
Reach-only_keyboard_example =
    Reach-only_keyboard fresh fresh registers ports (arguments 0x2BADB002) kernel ports-IsPic
      started-IsReady (omega arith) boots.returns begun (delivered answered.1).1

loaded : started.loaded_idt ≡ record { limit = 2047; base = 0xC0105000 }
loaded =
    Reach-loaded fresh fresh registers ports (arguments 0x2BADB002) kernel ports-IsPic
      started-IsReady (omega arith) isr irq 0xC0105000 cleared refl boots.returns begun

-- The sample processor, with the key pressed again.
Reach-Serves_example :
    Serves fresh fresh (irq 1) 0xC0105000 (begin started) line (key 0x1E) (program (λ a. a))
Reach-Serves_example =
    Reach-Serves fresh fresh registers ports (arguments 0x2BADB002) kernel ports-IsPic
      started-IsReady (omega arith) isr irq 0xC0105000 cleared refl (omega arith) boots.returns
      begun (delivered answered.1).1 (key 0x1E) (program (λ a. a)) (program-IsCpu (λ a. a))
      (omega arith) (sym (ap (λ (x : IdtRegister). x.limit) loaded))
      (sym (ap (λ (x : IdtRegister). x.base) loaded))

-- The client that asked for one frame after the start.
abbrev first_frame : Client
first_frame = record {
  allocator = (alloc_frame started.allocator).1;
  held = (alloc_frame started.allocator).0 ∷ [];
}

init_ne_zero :
    (alloc_frame (
      init kernel.allocator 0x9000 0x110000
        (memory_size (arguments 0x2BADB002) kernel)
        (kernel_desc (arguments 0x2BADB002)))).0
    ≢ 0
unfolding init alloc_frame bitmap_first_unset bitmap_set bitmap_unset load32 store32 memset
    deinit_kernel free_region free_frames is_aligned init_available_regions available_from
    physical_to_virtual init_bitmap kilobytes_to_frames init_region init_frames
init_ne_zero = omega arith

first_ne_zero : (alloc_frame started.allocator).0 ≢ 0
first_ne_zero e =
    init_ne_zero (ap (λ (a : PhysicalFrameAllocator). (alloc_frame a).0) (sym boots.allocator) ∙ e)

kernel_main-IsReserved_example :
    IsReserved
      (initial_bit kernel.allocator 0x110000
        (memory_size (arguments 0x2BADB002) kernel)
        (kernel_desc (arguments 0x2BADB002))
        0x9000)
      first_frame
unfolding load32 store32 memset physical_to_virtual init_bitmap kilobytes_to_frames
kernel_main-IsReserved_example =
    kernel_main-IsReserved fresh fresh registers ports (arguments 0x2BADB002) kernel ports-IsPic
      started-IsReady (omega arith) boots.returns (omega arith) (omega arith) (omega arith)
      (omega arith) (omega arith) (next here (take (newcomer started) first_ne_zero))
