-- ===== src/Running.antt =====
-- The machine after `kernel_main` has halted in kernel/kmain.cc's `Halt`: the processor waits in an
-- endless loop, and all that happens are the interrupts that the controllers deliver to
-- src/InterruptDescriptorTable/InterruptHandler.cc.
pub mod Invariant
pub mod Begin
pub mod Typed
pub mod Keyboard
pub mod Screen
pub mod Dispatch
pub mod Service
pub mod Frames
mod Tests
use cosmo.FrameBuffer.{FrameBuffer}
use cosmo.Interrupts.{irq_handler}
use cosmo.Interrupts.Handled.{eois}
use cosmo.Interrupts.Keys.{scan_code}
use cosmo.Irq.{InterruptContext}
use cosmo.Keyboard.{print_ascii_char}
use cosmo.Kmain.Boot.{Kernel}
use cosmo.Memory.{Memory}
use cosmo.Pic.Chip.{Chip}
use cosmo.Pic.Masks.{masked}
use cosmo.PortIo.{Hardware}
use cosmo.Prelude.{
  ℕ, suc, ◌<◌, ◌≤◌, ◌≡◌, ◌==◌, if◌then◌else◌, Bool, true, Option, some, List, [], ◌∷◌,
}

-- The kernel, how many interrupts the processor took, and the scan codes that the keyboard sent, the
-- latest one first.
pub record Machine : Type 0 where
  pub kernel : Kernel
  pub taken : ℕ
  pub codes : List ℕ

-- The machine when the start is over, with no interrupt in service.
abbrev pub begin : Kernel → Machine
begin k = record { kernel = k; taken = eois k.screen.ports; codes = [] }

-- The keys of the codes typed on a screen, the latest one first.
unfoldable pub typed : List ℕ → FrameBuffer → FrameBuffer
typed [] fb = fb
typed (code ∷ codes) fb = print_ascii_char code (typed codes fb)

-- The machine after the handler of an interrupt returned.
abbrev pub after_irq : Hardware → InterruptContext → Machine → Memory → FrameBuffer → Machine
after_irq hardware int_context s log_buffer screen = record {
  kernel = record (s.kernel) { screen = screen; log_buffer = log_buffer };
  taken = suc s.taken;
  codes = if int_context.int_no == 1 then scan_code hardware s.kernel.screen ∷ s.codes else s.codes;
}

module _ (start₁ start₂ : Chip) where
  -- The controllers, as their data sheet describes them, let an interrupt of a line through to the
  -- processor: the line is not masked, a line of the slave needs the master's line 2 too, the
  -- interrupts taken before are acknowledged, and the processor's interrupts are enabled.
  pub record Deliverable (s : Machine) (n : ℕ) : Type 0 where
    pub is_line : n < 16
    pub unmasked : masked start₁ start₂ s.kernel.screen.ports n ≡ 0
    pub cascaded : 8 ≤ n → masked start₁ start₂ s.kernel.screen.ports 2 ≡ 0
    pub acknowledged : eois s.kernel.screen.ports ≡ s.taken
    pub enabled : s.kernel.interrupts ≡ true

  -- An interrupt whose handler returns. What the ports read is up to the devices, each time anew.
  pub data Step (s : Machine) : Machine → Type 0 where
    interrupt :
        (hardware : Hardware) (int_context : InterruptContext) (log_buffer : Memory)
        (screen : FrameBuffer)
        → Deliverable s int_context.int_no
        → irq_handler hardware int_context s.kernel.log_buffer s.kernel.screen
          ≡ some (log_buffer, screen)
        → Step s (after_irq hardware int_context s log_buffer screen)

  pub data Reach (k : Kernel) : Machine → Type 0 where
    begun : Reach k (begin k)
    later : {s t : Machine} → Reach k s → Step s t → Reach k t
