-- ===== src/Keyboard.antt =====
-- src/InterruptDescriptorTable/IRQ/Keyboard/KeyboardIrq.cc: the scan codes
-- and their characters.
use cosmo.FrameBuffer.{FrameBuffer, print_char}
use cosmo.Irq.{keyboard, number}
use cosmo.Pic.{send_eoi}
use cosmo.PortIo.{Hardware, Io, pure, ◌>>=◌, ◌>>◌, inb}
use cosmo.Prelude.{ℕ, List, [], ◌∷◌, leb, if◌then◌else◌, get_or}

-- `kKbdDataPort`.
abbrev pub kbd_data_port : ℕ
kbd_data_port = 0x60

unfoldable pub read_scan_code : Hardware → Io ℕ
unfolding send_eoi
read_scan_code hardware = do
  scan_code ← inb hardware kbd_data_port
  send_eoi (number keyboard)
  pure scan_code

-- `kUsKeyboardLayout`. The array has 128 characters; those behind the last listed ones are 0.
abbrev pub us_keyboard_layout : List ℕ
us_keyboard_layout =
    0 ∷ 27 ∷ b'1' ∷ b'2' ∷ b'3' ∷ b'4' ∷ b'5' ∷ b'6' ∷ b'7' ∷ b'8' ∷ b'9' ∷ b'0' ∷ b'-' ∷ b'=' ∷ 8
    ∷ 9 ∷ b'q' ∷ b'w' ∷ b'e' ∷ b'r' ∷ b't' ∷ b'y' ∷ b'u' ∷ b'i' ∷ b'o' ∷ b'p' ∷ b'[' ∷ b']' ∷ 10 ∷ 0
    ∷ b'a' ∷ b's' ∷ b'd' ∷ b'f' ∷ b'g' ∷ b'h' ∷ b'j' ∷ b'k' ∷ b'l' ∷ b';' ∷ 39 ∷ b'`' ∷ 0 ∷ 92
    ∷ b'z' ∷ b'x' ∷ b'c' ∷ b'v' ∷ b'b' ∷ b'n' ∷ b'm' ∷ b',' ∷ b'.' ∷ b'/' ∷ 0 ∷ b'*' ∷ 0 ∷ b' ' ∷ 0
    ∷ 0 ∷ 0 ∷ 0 ∷ 0 ∷ 0 ∷ 0 ∷ 0 ∷ 0 ∷ 0 ∷ 0 ∷ 0 ∷ 0 ∷ 0 ∷ 0 ∷ 0 ∷ b'-' ∷ 0 ∷ 0 ∷ 0 ∷ b'+' ∷ []

unfoldable pub print_ascii_char : ℕ → FrameBuffer → FrameBuffer
print_ascii_char scan_code fb =
    if leb 128 scan_code then fb else print_char (get_or us_keyboard_layout scan_code 0) fb
