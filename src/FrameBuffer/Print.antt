-- ===== src/FrameBuffer/Print.antt =====
-- `PrintChar` and `PrintString`: the cursor, the display's view of it, and the cells.
use cosmo.Bits.{bit_and_above, bit_and_low, bit_or_sum_flip}
use cosmo.FrameBuffer.{
  FrameBuffer, update, place, wrap_line, scroll_screen, print_char, print_chars, print_string,
  space,
}
use cosmo.FrameBuffer.Cursor.{Crtc, shown, move_cursor-shown}
use cosmo.FrameBuffer.Scroll.{scroll_screen_lem, scrolled}
use cosmo.Prelude.{
  ℕ, ◌+◌, ◌-◌, ◌*◌, ◌/◌, ◌%◌, ◌^◌, ◌==◌, ◌<◌, ◌≤◌, ◌≡◌, if◌then◌else◌, u16, not32, bit_and, bit_or,
  refl, arith, List, [], ◌∷◌, Option, none, some, ap, ◌∙◌,
}

-- The cursor is on the screen and the attribute is a byte.
pub record IsOnScreen (fb : FrameBuffer) : Type 0 where
  pub column : fb.x < 80
  pub row : fb.y < 25
  pub attribute : fb.attr_byte < 2 ^ 8

-- The next multiple of four.
pub tab_stop : (x : ℕ) → x < 80 → bit_and (x + 4) (not32 3) ≡ (x + 4) / 4 * 4
tab_stop x l =
    let split : (x + 4) / 4 * 4 + (x + 4) % 4 ≡ x + 4 = omega arith in
    let above = bit_and_above 2 ((x + 4) / 4) ((x + 4) % 4) (2 ^ 30 - 1) (omega arith) in
    omega (arith, ap (λ (t : ℕ). bit_and t (not32 3)) split, above, bit_and_low 30 ((x + 4) / 4))

-- One character leaves the column on the screen or just behind it.
pub place_lem :
    (c k : ℕ) (fb : FrameBuffer)
    → IsOnScreen fb
    → let g = wrap_line (place c fb) in
      (g.x < 80)
      × (g.y ≤ 25)
      × (g.attr_byte ≡ fb.attr_byte)
      × (2000 ≤ k → g.video_mem k ≡ fb.video_mem k)
unfolding place wrap_line
place_lem c k fb s = (
  ground (arith, s.column, tab_stop fb.x s.column),
  ground (arith, s.row, s.column, tab_stop fb.x s.column),
  ground arith,
  λ p. ground (arith, s.row, s.column),
)

-- `PrintChar` keeps the cursor on the screen, shows it there on the display, and writes no cell
-- behind the screen.
pub print_char-IsOnScreen :
    (start : Crtc) (c : ℕ) (fb : FrameBuffer)
    → IsOnScreen fb
    → let g = print_char c fb in
      IsOnScreen g
      × (shown start g.ports ≡ g.y * 80 + g.x)
      × ((k : ℕ) → 2000 ≤ k → g.video_mem k ≡ fb.video_mem k)
unfolding print_char
print_char-IsOnScreen start c fb s =
    let placed = wrap_line (place c fb) in
    let at = place_lem c 0 fb s in
    let top = scroll_screen_lem placed 0 in
    let row : (scroll_screen placed).y < 25 = ground (arith, at, top) in
    let column : (scroll_screen placed).x < 80 = ground (arith, at, top) in
    let moved =
      move_cursor-shown start (scroll_screen placed).y (scroll_screen placed).x
        (scroll_screen placed) row column in
    (
      record {
        column = ground (arith, moved, column);
        row = ground (arith, moved, row);
        attribute = ground (arith, moved, top, at, s.attribute);
      },
      ground (arith, moved),
      λ k p.
          ap (λ (m : ℕ → ℕ). m k) moved.3
          ∙ ground (arith, scroll_screen_lem placed k, place_lem c k fb s),
    )

printed :
    (c k : ℕ) (fb : FrameBuffer)
    → IsOnScreen fb
    → 32 ≤ c
    → c < 128
    → let g = wrap_line (place c fb) in
      (g.video_mem k ≡ update fb.video_mem (fb.y * 80 + fb.x) (fb.attr_byte * 2 ^ 8 + c) k)
      × (g.x ≡ (if fb.x == 79 then 0 else fb.x + 1))
      × (g.y ≡ (if fb.x == 79 then fb.y + 1 else fb.y))
      × (g.attr_byte ≡ fb.attr_byte)
unfolding place wrap_line
printed c k fb s lo hi = (
  ground (arith, bit_or_sum_flip 8 fb.attr_byte c (omega arith), s.attribute, s.column),
  ground (arith, s.column),
  ground (arith, s.column),
  ground arith,
)

-- The printable character `c` lands in the cursor's cell, in the colours in use. Behind the last
-- cell the text moves up by a line and the cursor to the start of the last row, else the cursor
-- moves to the next cell and every other cell is as it was.
pub print_char-printed :
    (c k : ℕ) (fb : FrameBuffer)
    → IsOnScreen fb
    → 32 ≤ c
    → c < 128
    → let cell = fb.y * 80 + fb.x in
      let written = update fb.video_mem cell (fb.attr_byte * 2 ^ 8 + c) in
      let g = print_char c fb in
      (g.video_mem k
        ≡ (if cell == 1999 then scrolled (record fb { video_mem = written }) k else written k))
      × (g.y * 80 + g.x ≡ (if cell == 1999 then 1920 else cell + 1))
unfolding print_char space
print_char-printed c k fb s lo hi =
    let placed = wrap_line (place c fb) in
    let at = printed c k fb s lo hi in
    let below = printed c (k + 80) fb s lo hi in
    let top = scroll_screen_lem placed k in
    let row : (scroll_screen placed).y < 25 = ground (arith, at, top, s.row) in
    let column : (scroll_screen placed).x < 80 = ground (arith, at, top, s.column) in
    let moved =
      move_cursor-shown (record { index = 0; high = 0; low = 0 }) (scroll_screen placed).y
        (scroll_screen placed).x (scroll_screen placed) row column in
    (
      ap (λ (m : ℕ → ℕ). m k) moved.3
          ∙ ground (
            arith,
            at,
            below,
            top,
            s.row,
            s.column,
            ap (λ (a : ℕ). u16 (bit_or 0x20 (a * 2 ^ 8))) at.3,
          ),
      ground (arith, moved, at, top, s.row, s.column),
    )

print_chars-IsOnScreen :
    (start : Crtc) (str : List ℕ) (fb : FrameBuffer)
    → IsOnScreen fb
    → shown start fb.ports ≡ fb.y * 80 + fb.x
    → let g = print_chars str fb in
      IsOnScreen g
      × (shown start g.ports ≡ g.y * 80 + g.x)
      × ((k : ℕ) → 2000 ≤ k → g.video_mem k ≡ fb.video_mem k)
unfolding print_chars
print_chars-IsOnScreen start [] fb s e = (s, e, λ k p. refl)
print_chars-IsOnScreen start (c ∷ cs) fb s e =
    let first = print_char-IsOnScreen start c fb s in
    let rest = print_chars-IsOnScreen start cs (print_char c fb) first.0 first.1 in
    (rest.0, rest.1, λ k p. rest.2 k p ∙ first.2 k p)

-- `PrintString` on null or on `len` characters, from a cursor that is on the screen and shown
-- there, leaves the cursor on the screen, shown there, and the cells behind the screen as they were.
pub print_string-IsOnScreen :
    (start : Crtc) (str : Option (List ℕ)) (fb : FrameBuffer)
    → IsOnScreen fb
    → shown start fb.ports ≡ fb.y * 80 + fb.x
    → let g = print_string str fb in
      IsOnScreen g
      × (shown start g.ports ≡ g.y * 80 + g.x)
      × ((k : ℕ) → 2000 ≤ k → g.video_mem k ≡ fb.video_mem k)
unfolding print_string
print_string-IsOnScreen start none fb s e = (s, e, λ k p. refl)
print_string-IsOnScreen start (some str) fb s e = print_chars-IsOnScreen start str fb s e
