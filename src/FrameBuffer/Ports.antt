-- ===== src/FrameBuffer/Ports.antt =====
-- What `PrintChar` does on the ports.
use cosmo.FrameBuffer.{
  FrameBuffer, place, wrap_line, scroll_screen, send_position, move_cursor, print_char,
}
use cosmo.FrameBuffer.Print.{IsOnScreen, place_lem}
use cosmo.FrameBuffer.Scroll.{scroll_screen_lem}
use cosmo.PortIo.{History}
use cosmo.Prelude.{ℕ, ◌+◌, ◌*◌, ◌≡◌, ◌&&◌, ltb, u16, true, ap, ◌∙◌, arith}

-- `PrintChar` sends a position of the cursor, and does nothing else on the ports.
pub record Sends (before after : History) : Type 0 where
  pub position : ℕ
  pub sends : after ≡ send_position position before

placed_ports : (c : ℕ) (fb : FrameBuffer) → (wrap_line (place c fb)).ports ≡ fb.ports
unfolding place wrap_line
placed_ports c fb = ground arith

pub print_char-Sends :
    (c : ℕ) (fb : FrameBuffer) → IsOnScreen fb → Sends fb.ports (print_char c fb).ports
unfolding print_char move_cursor
print_char-Sends c fb s =
    let placed = wrap_line (place c fb) in
    let at = place_lem c 0 fb s in
    let top = scroll_screen_lem placed 0 in
    let on_screen : (ltb (scroll_screen placed).y 25 && ltb (scroll_screen placed).x 80) ≡ true =
      ground (arith, at, top) in
    record {
      position = u16 ((scroll_screen placed).y * 80 + (scroll_screen placed).x);
      sends = rw on_screen (ap (send_position _) (top.4 ∙ placed_ports c fb));
    }
