-- ===== src/Interrupts/Keys.antt =====
-- The handler on the keyboard's line, step by step.
use cosmo.FrameBuffer.{FrameBuffer}
use cosmo.FrameBuffer.Cursor.{Crtc, crtc}
use cosmo.FrameBuffer.Draws.{IsShown, Draws, still}
use cosmo.FrameBuffer.View.{view, view-print_char}
use cosmo.Interrupts.{irq_handler, on_key}
use cosmo.Interrupts.Screen.{each-Draws}
use cosmo.Irq.{InterruptContext}
use cosmo.Keyboard.{read_scan_code, print_ascii_char, us_keyboard_layout}
use cosmo.Logger.Format.{each}
use cosmo.Memory.{Memory}
use cosmo.Pic.{send_eoi}
use cosmo.PortIo.{wrote, got, Hardware}
use cosmo.Prelude.{
  ℕ, ◌≡◌, ◌==◌, leb, get_or, u8, refl, arith, true, Bool-cases, inl, inr, [], ◌∷◌, some,
}

-- The byte that the keyboard's port reads now.
abbrev pub scan_code : Hardware → FrameBuffer → ℕ
scan_code hardware fb = u8 (hardware fb.ports 0x60)

-- The screen after the scan code was read and the interrupt acknowledged.
abbrev pub acknowledged : Hardware → FrameBuffer → FrameBuffer
acknowledged hardware fb = record fb {
  ports = wrote 0x20 0x20 ∷ got 0x60 (scan_code hardware fb) ∷ fb.ports;
}

pub irq_handler-key :
    (hardware : Hardware) (int_context : InterruptContext) (m : Memory) (fb : FrameBuffer)
    → int_context.int_no ≡ 1
    → irq_handler hardware int_context m fb
      ≡ some (m, print_ascii_char (scan_code hardware fb) (acknowledged hardware fb))
unfolding irq_handler on_key read_scan_code send_eoi
irq_handler-key hardware int_context m fb e =
    let key : (int_context.int_no == 1) ≡ true = ground arith in rw key refl

pub acknowledged-IsShown :
    (start : Crtc) (hardware : Hardware) (fb : FrameBuffer)
    → IsShown start fb
    → IsShown start (acknowledged hardware fb)
unfolding crtc
acknowledged-IsShown start hardware fb s = record {
  on_screen = record {
    column = s.on_screen.column;
    row = s.on_screen.row;
    attribute = s.on_screen.attribute;
  };
  shows = s.shows;
}

pub print_ascii_char-Draws :
    (start : Crtc) (code : ℕ) (fb : FrameBuffer)
    → IsShown start fb
    → Draws start fb (print_ascii_char code fb)
unfolding print_ascii_char each
print_ascii_char-Draws start code fb s = elim (Bool-cases (leb 128 code)) [
  | inl e ↦ rw e (record { in_order = s; quiet = still; behind = λ k p. refl })
  | inr e ↦ rw e (each-Draws start (get_or us_keyboard_layout code 0 ∷ []) fb s)
]

pub view-print_ascii_char :
    (code : ℕ) (fb : FrameBuffer)
    → view (print_ascii_char code (view fb)) ≡ view (print_ascii_char code fb)
unfolding print_ascii_char
view-print_ascii_char code fb = elim (Bool-cases (leb 128 code)) [
  | inl e ↦ rw e refl
  | inr e ↦ rw e (view-print_char (get_or us_keyboard_layout code 0) fb)
]
