-- ===== src/Interrupts/Handled.antt =====
-- The runs of the handlers: what they print, and what they do to the screen and the ports.
use mathlib.Core.Path.{subst}
use cosmo.FrameBuffer.{FrameBuffer, print_char, send_position}
use cosmo.FrameBuffer.Cursor.{Crtc}
use cosmo.FrameBuffer.Draws.{Draws, IsShown, Quiet-keeps}
use cosmo.Interrupts.{isr_handler, irq_handler, irq_message, exception_message}
use cosmo.Interrupts.Keys.{
  scan_code, acknowledged, irq_handler-key, acknowledged-IsShown, print_ascii_char-Draws,
}
use cosmo.Interrupts.Screen.{each-Draws, screen-Writer}
use cosmo.Irq.{InterruptContext}
use cosmo.Keyboard.{print_ascii_char}
use cosmo.Logger.Format.{prefix, get_unsigned, next_arg, each, log, of_unsigned, error}
use cosmo.Logger.Format.Render.{hex_text}
use cosmo.Logger.Format.Text.{Prints}
use cosmo.Logger.Format.Whole.{PrintsText, log-PrintsText}
use cosmo.Memory.{Memory}
use cosmo.PortIo.{wrote, got, History, Hardware}
use cosmo.Prelude.{
  ℕ, ◌+◌, ◌<◌, ◌≤◌, ◌^◌, ◌≡◌, ◌==◌, ◌&&◌, refl, arith, sym, if◌then◌else◌, List, [], ◌∷◌, ◌++◌, suc,
  Option, some, Bool-cases, inl, inr,
}

-- How often the master controller was told that its interrupt is over.
unfoldable pub eois : History → ℕ
eois [] = 0
eois (got port v ∷ h) = eois h
eois (wrote port v ∷ h) = if port == 0x20 && v == 0x20 then suc (eois h) else eois h

-- The line that a handler prints for a number that it does not expect.
abbrev pub error_line : List ℕ → ℕ → List ℕ
error_line words int_no = prefix error ++ (words ++ (hex_text int_no ++ (b'\n' ∷ [])))

abbrev pub exception_words : List ℕ
exception_words =
    b'e' ∷ b'r' ∷ b'r' ∷ b'o' ∷ b'r' ∷ b',' ∷ b' ' ∷ b'u' ∷ b'n' ∷ b'h' ∷ b'a' ∷ b'n' ∷ b'd' ∷ b'l'
    ∷ b'e' ∷ b'd' ∷ b' ' ∷ b'e' ∷ b'x' ∷ b'c' ∷ b'e' ∷ b'p' ∷ b't' ∷ b'i' ∷ b'o' ∷ b'n' ∷ b' ' ∷ []

abbrev pub irq_words : List ℕ
irq_words =
    b'e' ∷ b'r' ∷ b'r' ∷ b'o' ∷ b'r' ∷ b',' ∷ b' ' ∷ b'u' ∷ b'n' ∷ b'h' ∷ b'a' ∷ b'n' ∷ b'd' ∷ b'l'
    ∷ b'e' ∷ b'd' ∷ b' ' ∷ b'I' ∷ b'R' ∷ b'Q' ∷ b' ' ∷ []

-- For a vector of 32 bits `isr_handler` reaches its halt, after it printed the error's line with the
-- vector in hexadecimal.
pub isr_handler-Prints :
    (int_context : InterruptContext) (m : Memory) (fb : FrameBuffer)
    → int_context.int_no < 2 ^ 32
    → Prints screen-Writer
        (error_line exception_words int_context.int_no)
        fb
        (isr_handler int_context m fb)
unfolding isr_handler PrintsText get_unsigned next_arg
isr_handler-Prints int_context m fb l =
    log-PrintsText screen-Writer error exception_message (of_unsigned int_context.int_no ∷ []) m fb
      (l, tt)

-- `after` is a screen in order, with the cells behind it as on `before`, after `times` more
-- acknowledgements of an interrupt.
pub record Follows (start : Crtc) (times : ℕ) (before after : FrameBuffer) : Type 0 where
  pub in_order : IsShown start after
  pub behind : (k : ℕ) → 2000 ≤ k → after.video_mem k ≡ before.video_mem k
  pub acknowledged : eois after.ports ≡ times + eois before.ports

pub eois-send_position : (p : ℕ) (h : History) → eois (send_position p h) ≡ eois h
unfolding eois send_position
eois-send_position p h = refl

Draws-Follows :
    {start : Crtc} {before after : FrameBuffer}
    → Draws start before after
    → Follows start 0 before after
Draws-Follows d = record {
  in_order = d.in_order;
  behind = d.behind;
  acknowledged = omega (arith, Quiet-keeps eois eois-send_position d.quiet);
}

-- The handler of an interrupt line ends.
pub record Handled (start : Crtc) (times : ℕ) (fb : FrameBuffer)
    (result : Option (Memory × FrameBuffer)) : Type 0 where
  pub log_buffer : Memory
  pub screen : FrameBuffer
  pub returns : result ≡ some (log_buffer, screen)
  pub follows : Follows start times fb screen

pub eois-acknowledged :
    (hardware : Hardware) (fb : FrameBuffer)
    → eois (acknowledged hardware fb).ports ≡ suc (eois fb.ports)
unfolding eois
eois-acknowledged hardware fb = refl

Handled-times :
    {start : Crtc} {fb : FrameBuffer} {result : Option (Memory × FrameBuffer)} {times other : ℕ}
    → other ≡ times
    → Handled start times fb result
    → Handled start other fb result
Handled-times {start} {fb} {result} e h = subst (λ n. Handled start n fb result) (sym e) h

key-Handled :
    (start : Crtc) (hardware : Hardware) (int_context : InterruptContext) (m : Memory)
    (fb : FrameBuffer)
    → int_context.int_no ≡ 1
    → IsShown start fb
    → Handled start 1 fb (irq_handler hardware int_context m fb)
key-Handled start hardware int_context m fb e s =
    let told = acknowledged hardware fb in
    let d = Draws-Follows (
      print_ascii_char-Draws start (scan_code hardware fb) told
        (acknowledged-IsShown start hardware fb s)) in
    record {
      log_buffer = m;
      screen = print_ascii_char (scan_code hardware fb) told;
      returns = irq_handler-key hardware int_context m fb e;
      follows = record {
        in_order = d.in_order;
        behind = d.behind;
        acknowledged = omega (arith, d.acknowledged, eois-acknowledged hardware fb);
      };
    }

-- With the screen in order `irq_handler` ends for every interrupt number of 32 bits, leaves the
-- screen in order and the cells behind it as they were. It acknowledges the interrupt of the
-- keyboard once, and no other interrupt.
pub irq_handler-Handled :
    (start : Crtc) (hardware : Hardware) (int_context : InterruptContext) (m : Memory)
    (fb : FrameBuffer)
    → int_context.int_no < 2 ^ 32
    → IsShown start fb
    → Handled start
        (if int_context.int_no == 1 then 1 else 0)
        fb
        (irq_handler hardware int_context m fb)
unfolding irq_handler PrintsText get_unsigned next_arg
irq_handler-Handled start hardware int_context m fb l s =
    elim (Bool-cases (int_context.int_no == 1)) [
      | inl e ↦
          Handled-times (rw e refl) (key-Handled start hardware int_context m fb (ground arith) s)
      | inr e ↦
          let p : Prints screen-Writer (error_line irq_words int_context.int_no) fb
              (log screen-Writer error irq_message (of_unsigned int_context.int_no ∷ []) m fb) =
            log-PrintsText screen-Writer error irq_message (of_unsigned int_context.int_no ∷ []) m
              fb (l, tt) in
          Handled-times (rw e refl) (record {
            log_buffer = p.log_buffer;
            screen = each print_char (error_line irq_words int_context.int_no) fb;
            returns = rw e p.returns;
            follows =
                Draws-Follows (each-Draws start (error_line irq_words int_context.int_no) fb s);
          })
    ]
