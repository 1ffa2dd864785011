-- ===== src/Interrupts/Tests.antt =====
-- The handlers on a fresh screen, with a keyboard that reads the key `a`, and the theorems there.
use cosmo.FrameBuffer.{FrameBuffer, print_char}
use cosmo.FrameBuffer.Cursor.{Crtc, crtc}
use cosmo.FrameBuffer.Draws.{IsShown}
use cosmo.Interrupts.{isr_handler, irq_handler}
use cosmo.Interrupts.Handled.{
  Handled, error_line, exception_words, isr_handler-Prints, irq_handler-Handled,
}
use cosmo.Interrupts.Screen.{screen-Writer}
use cosmo.Interrupts.Interleaved.{Printing, printed, char, key, ShowsMerge, log-ShowsMerge}
use cosmo.Interrupts.Keys.{scan_code, acknowledged, irq_handler-key}
use cosmo.Keyboard.{print_ascii_char}
use cosmo.Irq.{InterruptContext}
use cosmo.Interrupts.Log.{log-ShowsLine}
use cosmo.FrameBuffer.Line.{ShowsLine}
use cosmo.Logger.Format.{of_unsigned, get_unsigned, next_arg, log, prefix, debug, info, each}
use cosmo.Logger.Format.Print.{text}
use cosmo.Logger.Numeral.{numeral}
use cosmo.Logger.Format.Text.{Prints}
use cosmo.Memory.{Memory}
use cosmo.PortIo.{Hardware}
use cosmo.Prelude.{List, ◌∷◌, ◌++◌, some, ◌≡◌, ℕ, refl, arith, []}

abbrev blank : Memory
blank a = 0

abbrev context : ℕ → InterruptContext
context n = record {
  cr2 = 0;
  gs = 0x10;
  fs = 0x10;
  ds = 0x10;
  es = 0x10;
  edi = 0;
  esi = 0;
  ebp = 0;
  ebx = 0;
  edx = 0;
  ecx = 0;
  eax = 0;
  int_no = n;
  err_code = 0;
  cs = 8;
  eflags = 0x202;
  esp = 0;
  ss = 0x10;
}

abbrev registers : Crtc
registers = record { index = 0; high = 0; low = 0 }

abbrev fresh : FrameBuffer
fresh = record { video_mem = λ k. 0x0F20; attr_byte = 0x0F; x = 0; y = 0; ports = [] }

fresh-IsShown : IsShown registers fresh
unfolding crtc
fresh-IsShown = record {
  on_screen = record { column = omega arith; row = omega arith; attribute = omega arith };
  shows = refl;
}

abbrev key_a : Hardware
key_a h port = 0x1E

isr_handler-Prints_example :
    Prints screen-Writer
      (error_line exception_words 13)
      fresh
      (isr_handler (context 13) blank fresh)
isr_handler-Prints_example = isr_handler-Prints (context 13) blank fresh (omega arith)

irq_handler-Handled_example : Handled registers 1 fresh (irq_handler key_a (context 1) blank fresh)
irq_handler-Handled_example =
    irq_handler-Handled registers key_a (context 1) blank fresh (omega arith) fresh-IsShown

-- The text of `%u` and a new line for 7.
abbrev format : List ℕ
format = b'%' ∷ b'u' ∷ b'\n' ∷ []

seven : text format (of_unsigned 7 ∷ []) ≡ some (b'7' ∷ b'\n' ∷ [])
unfolding get_unsigned next_arg numeral
seven = refl

log-ShowsLine_example :
    (m' : Memory) × (g : FrameBuffer) × (log screen-Writer debug format
        (of_unsigned 7 ∷ [])
        blank
        fresh
      ≡ some (m', g))
    × ShowsLine (prefix debug ++ (b'7' ∷ [])) fresh g
log-ShowsLine_example =
    log-ShowsLine debug format (of_unsigned 7 ∷ []) (b'7' ∷ []) blank fresh
      (record { column = omega arith; row = omega arith; attribute = omega arith }) refl
      (omega arith) (omega arith, tt) seven (omega arith) (omega arith)

-- The screen after the first character of the prefix, and after the key that comes in there.
abbrev one_printed : FrameBuffer
one_printed = print_char b'[' fresh

abbrev key_printed : FrameBuffer
key_printed = print_ascii_char (scan_code key_a one_printed) (acknowledged key_a one_printed)

interrupted :
    Printing
      (each print_char (b'I' ∷ b'N' ∷ b'F' ∷ b'O' ∷ b']' ∷ b' ' ∷ []) key_printed)
      (prefix info ++ [])
      (0x1E ∷ [])
      fresh
unfolding each
interrupted = char (
    key key_a (context 1) blank blank refl
      (irq_handler-key key_a (context 1) blank one_printed refl) refl
      (char (char (char (char (char (char printed)))))))

log-ShowsMerge_example :
    (m' : Memory) × (log screen-Writer info [] [] blank fresh
      ≡ some (m', each print_char (prefix info ++ []) fresh))
    × ShowsMerge registers
        (prefix info ++ [])
        (0x1E ∷ [])
        fresh
        (each print_char (b'I' ∷ b'N' ∷ b'F' ∷ b'O' ∷ b']' ∷ b' ' ∷ []) key_printed)
log-ShowsMerge_example =
    log-ShowsMerge registers info [] [] [] blank tt refl fresh-IsShown interrupted
