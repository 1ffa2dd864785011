-- ===== src/Interrupts/Screen.antt =====
-- The screen as a writer of the logger.
use mathlib.Core.Path.{subst}
use cosmo.FrameBuffer.{FrameBuffer, print_char, print_chars, print_string}
use cosmo.FrameBuffer.Cursor.{Crtc}
use cosmo.FrameBuffer.Draws.{IsShown, Draws, print_chars-Draws}
use cosmo.Logger.Format.{Writer, each}
use cosmo.Prelude.{ℕ, List, [], ◌∷◌, some, ◌≡◌, refl}

pub print_chars-each :
    (str : List ℕ) (fb : FrameBuffer) → print_chars str fb ≡ each print_char str fb
unfolding print_chars each
print_chars-each [] fb = refl
print_chars-each (c ∷ cs) fb = print_chars-each cs (print_char c fb)

unfoldable pub screen-Writer : Writer FrameBuffer
unfolding print_string
screen-Writer = record {
  print_char = print_char;
  print_string = λ str. print_string (some str);
  print_string-each = print_chars-each;
}

pub each-Draws :
    (start : Crtc) (str : List ℕ) (fb : FrameBuffer)
    → IsShown start fb
    → Draws start fb (each print_char str fb)
each-Draws start str fb s =
    subst (λ g. Draws start fb g) (print_chars-each str fb) (print_chars-Draws start str fb s)
