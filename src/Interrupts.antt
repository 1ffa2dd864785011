-- ===== src/Interrupts.antt =====
-- src/InterruptDescriptorTable/InterruptHandler.cc: the handlers that the assembly entry points
-- call, for the interrupt number of the context. They reach the screen's one instance, whose ports
-- are the machine's, and the logger's buffer.
pub mod Screen
pub mod Keys
pub mod Log
pub mod Handled
pub mod Interleaved
mod Tests
use cosmo.FrameBuffer.{FrameBuffer}
use cosmo.Interrupts.Screen.{screen-Writer}
use cosmo.Irq.{InterruptContext, keyboard, number}
use cosmo.Keyboard.{read_scan_code, print_ascii_char}
use cosmo.Logger.Format.{Arg, of_unsigned, log, log_error}
use cosmo.Memory.{Memory}
use cosmo.PortIo.{Hardware}
use cosmo.Prelude.{ℕ, ◌==◌, if◌then◌else◌, Option, some, List, [], ◌∷◌}

-- The message of `isr_handler`: `error, unhandled exception %X` and a new line.
abbrev pub exception_message : List ℕ
exception_message =
    b'e' ∷ b'r' ∷ b'r' ∷ b'o' ∷ b'r' ∷ b',' ∷ b' ' ∷ b'u' ∷ b'n' ∷ b'h' ∷ b'a' ∷ b'n' ∷ b'd' ∷ b'l'
    ∷ b'e' ∷ b'd' ∷ b' ' ∷ b'e' ∷ b'x' ∷ b'c' ∷ b'e' ∷ b'p' ∷ b't' ∷ b'i' ∷ b'o' ∷ b'n' ∷ b' '
    ∷ b'%' ∷ b'X' ∷ b'\n' ∷ []

-- The message of `irq_handler`: `error, unhandled IRQ %X` and a new line.
abbrev pub irq_message : List ℕ
irq_message =
    b'e' ∷ b'r' ∷ b'r' ∷ b'o' ∷ b'r' ∷ b',' ∷ b' ' ∷ b'u' ∷ b'n' ∷ b'h' ∷ b'a' ∷ b'n' ∷ b'd' ∷ b'l'
    ∷ b'e' ∷ b'd' ∷ b' ' ∷ b'I' ∷ b'R' ∷ b'Q' ∷ b' ' ∷ b'%' ∷ b'X' ∷ b'\n' ∷ []

-- `isr_handler` up to the endless loop that halts the machine.
unfoldable pub isr_handler : InterruptContext → Memory → FrameBuffer → Option (Memory × FrameBuffer)
unfolding log screen-Writer
isr_handler int_context log_buffer fb =
    log_error screen-Writer exception_message (of_unsigned int_context.int_no ∷ []) log_buffer fb

-- The case of the keyboard.
unfoldable pub on_key : Hardware → Memory → FrameBuffer → Memory × FrameBuffer
unfolding read_scan_code print_ascii_char
on_key hardware log_buffer fb =
    let (scan_code, ports) = read_scan_code hardware fb.ports in
    (log_buffer, print_ascii_char scan_code (record fb { ports = ports }))

unfoldable pub irq_handler :
    Hardware → InterruptContext → Memory → FrameBuffer → Option (Memory × FrameBuffer)
unfolding log screen-Writer on_key
irq_handler hardware int_context log_buffer fb =
    if int_context.int_no == number keyboard
    then some (on_key hardware log_buffer fb)
    else log_error screen-Writer irq_message (of_unsigned int_context.int_no ∷ []) log_buffer fb
