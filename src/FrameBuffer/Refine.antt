-- ===== src/FrameBuffer/Refine.antt =====
-- The screen against the terminal.
use cosmo.FrameBuffer.{
  FrameBuffer, place, wrap_line, scroll_screen, print_char, print_chars, print_string, space,
}
use cosmo.FrameBuffer.Cursor.{move_cursor-shown}
use cosmo.FrameBuffer.Line.{cell, registers, print_char-attribute}
use cosmo.FrameBuffer.Print.{IsOnScreen, place_lem, tab_stop, print_char-IsOnScreen}
use cosmo.FrameBuffer.Scroll.{scroll_screen_lem}
use cosmo.Bits.{bit_or_sum_flip}
use cosmo.Prelude.{
  ℕ, ◌+◌, ◌-◌, ◌*◌, ◌/◌, ◌%◌, ◌^◌, ◌<◌, ◌≡◌, ltb, u16, bit_or, refl, arith, List, [], ◌∷◌, some, ap,
  ◌∙◌, fun_ext, true, false, Bool-cases, inl, inr,
}
use cosmo.FrameBuffer.Terminal.{Terminal, advance, moved_up, write, type_char, type_text, terminal}

placed :
    (c k : ℕ) (fb : FrameBuffer)
    → IsOnScreen fb
    → let g = wrap_line (place c fb) in
      (cell g ≡ advance c (cell fb)) × (g.video_mem k ≡ write c (terminal fb) k)
unfolding place wrap_line
placed c k fb s =
    let row : cell fb / 80 ≡ fb.y = omega (arith, s.column) in
    let column : cell fb % 80 ≡ fb.x = omega (arith, s.column) in
    let glyph : c < 128 → u16 (bit_or c (u16 (fb.attr_byte * 2 ^ 8))) ≡ fb.attr_byte * 2 ^ 8 + c =
      λ l.
        let high : u16 (fb.attr_byte * 2 ^ 8) ≡ fb.attr_byte * 2 ^ 8 = omega (arith, s.attribute) in
        rw high (omega (arith, bit_or_sum_flip 8 fb.attr_byte c (omega arith), s.attribute)) in
    (ground (arith, row, column, s.column, tab_stop fb.x s.column), ground (arith, glyph, s.column))

type_char-stays :
    (c : ℕ) (t : Terminal)
    → ltb (advance c t.position) 2000 ≡ true
    → type_char c t ≡ record t { cells = write c t; position = advance c t.position }
unfolding type_char
type_char-stays c t e = rw e refl

type_char-scrolls :
    (c : ℕ) (t : Terminal)
    → ltb (advance c t.position) 2000 ≡ false
    → type_char c t
      ≡ record t { cells = moved_up t.colour (write c t); position = advance c t.position - 80 }
unfolding type_char
type_char-scrolls c t e = rw e refl

pub blank : (fb : FrameBuffer) → fb.attr_byte < 2 ^ 8 → space fb ≡ fb.attr_byte * 2 ^ 8 + 32
unfolding space
blank fb l =
    let high : u16 (fb.attr_byte * 2 ^ 8) ≡ fb.attr_byte * 2 ^ 8 = omega arith in
    ground (arith, bit_or_sum_flip 8 fb.attr_byte 32 (omega arith), high)

print_char-cell :
    (c : ℕ) (fb : FrameBuffer)
    → IsOnScreen fb
    → cell (print_char c fb) ≡ (type_char c (terminal fb)).position
unfolding print_char type_char
print_char-cell c fb s =
    let g = wrap_line (place c fb) in
    let at = place_lem c 0 fb s in
    let spot = (placed c 0 fb s).0 in
    let top = scroll_screen_lem g 0 in
    let moved =
      move_cursor-shown registers (scroll_screen g).y (scroll_screen g).x (scroll_screen g)
        (ground (arith, at, top)) (ground (arith, at, top)) in
    ground (arith, moved, at, top, spot)

print_char-cells :
    (c k : ℕ) (fb : FrameBuffer)
    → IsOnScreen fb
    → (print_char c fb).video_mem k ≡ (type_char c (terminal fb)).cells k
unfolding print_char
print_char-cells c k fb s =
    let g = wrap_line (place c fb) in
    let at = place_lem c 0 fb s in
    let here = placed c k fb s in
    let below = placed c (k + 80) fb s in
    let top = scroll_screen_lem g k in
    let moved =
      move_cursor-shown registers (scroll_screen g).y (scroll_screen g).x (scroll_screen g)
        (ground (arith, at, top)) (ground (arith, at, top)) in
    ap (λ (m : ℕ → ℕ). m k) moved.3 ∙ elim (Bool-cases (ltb (advance c (cell fb)) 2000)) [
      | inl e ↦
          rw (type_char-stays c (terminal fb) e) (ground (arith, top.0, here.0, here.1, at.0, e))
      | inr e ↦ rw (type_char-scrolls c (terminal fb) e) (
          ground (
            arith,
            top.0,
            here.0,
            here.1,
            below.1,
            at.0,
            at.1,
            e,
            blank g (omega (arith, at.2, s.attribute)),
            at.2,
          ))
    ]

print_char-colour :
    (c : ℕ) (fb : FrameBuffer)
    → IsOnScreen fb
    → (print_char c fb).attr_byte ≡ (type_char c (terminal fb)).colour
print_char-colour c fb s =
    print_char-attribute c fb s ∙ (elim (Bool-cases (ltb (advance c (cell fb)) 2000)) [
      | inl e ↦ rw (type_char-stays c (terminal fb) e) refl
      | inr e ↦ rw (type_char-scrolls c (terminal fb) e) refl
    ])

pub Terminal_ext :
    {s t : Terminal}
    → ((k : ℕ) → s.cells k ≡ t.cells k)
    → s.position ≡ t.position
    → s.colour ≡ t.colour
    → s ≡ t
Terminal_ext {s} {t} cells position colour =
    ap (λ c. record { cells = c; position = s.position; colour = s.colour }) (fun_ext cells)
    ∙ ap (λ p. record { cells = t.cells; position = p; colour = s.colour }) position
    ∙ ap (λ c. record { cells = t.cells; position = t.position; colour = c }) colour

pub print_char_refines :
    (c : ℕ) (fb : FrameBuffer)
    → IsOnScreen fb
    → terminal (print_char c fb) ≡ type_char c (terminal fb)
print_char_refines c fb s =
    Terminal_ext (λ k. print_char-cells c k fb s) (print_char-cell c fb s)
      (print_char-colour c fb s)

pub print_chars_refines :
    (str : List ℕ) (fb : FrameBuffer)
    → IsOnScreen fb
    → terminal (print_chars str fb) ≡ type_text str (terminal fb)
unfolding print_chars type_text
print_chars_refines [] fb s = refl
print_chars_refines (c ∷ cs) fb s =
    print_chars_refines cs (print_char c fb) (print_char-IsOnScreen registers c fb s).0
    ∙ ap (type_text cs) (print_char_refines c fb s)

-- With the cursor on the screen, `PrintString` of any characters leaves the screen that the terminal
-- leaves: the same cells, the same colours, and the cursor at the same position.
pub print_string_refines :
    (str : List ℕ) (fb : FrameBuffer)
    → IsOnScreen fb
    → terminal (print_string (some str) fb) ≡ type_text str (terminal fb)
unfolding print_string
print_string_refines = print_chars_refines
