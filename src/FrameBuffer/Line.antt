-- ===== src/FrameBuffer/Line.antt =====
-- A text on the screen, in the cells behind the cursor.
use cosmo.FrameBuffer.{
  FrameBuffer, update, place, wrap_line, scroll_screen, print_char, print_chars,
}
use cosmo.FrameBuffer.Cursor.{Crtc, move_cursor-shown}
use cosmo.FrameBuffer.Print.{IsOnScreen, place_lem, print_char-IsOnScreen, print_char-printed}
use cosmo.FrameBuffer.Scroll.{scroll_screen_lem}
use cosmo.Prelude.{
  ℕ, suc, ◌+◌, ◌-◌, ◌*◌, ◌^◌, ◌<◌, ◌≤◌, ◌≡◌, ltb, leb, ◌&&◌, if◌then◌else◌, refl, arith, List, [],
  ◌∷◌, length, get_or, ◌++◌, All, ap, ◌∙◌,
}

abbrev pub IsPrintable : ℕ → Type 0
IsPrintable c = (32 ≤ c) × (c < 128)

-- The cell under the cursor.
abbrev pub cell : FrameBuffer → ℕ
cell fb = fb.y * 80 + fb.x

-- `after` shows the text in the colours of `before`, from its cursor on, and elsewhere what `before`
-- shows. The cursor stands behind the text.
pub record Shows (str : List ℕ) (before after : FrameBuffer) : Type 0 where
  pub on_screen : IsOnScreen after
  pub attribute : after.attr_byte ≡ before.attr_byte
  pub cursor : cell after ≡ cell before + length str
  pub cells :
      (k : ℕ)
      → after.video_mem k ≡ (
          if leb (cell before) k && ltb k (cell before + length str)
          then before.attr_byte * 2 ^ 8 + get_or str (k - cell before) 0
          else before.video_mem k)

pub registers : Crtc
registers = record { index = 0; high = 0; low = 0 }

pub print_char-attribute :
    (c : ℕ) (fb : FrameBuffer) → IsOnScreen fb → (print_char c fb).attr_byte ≡ fb.attr_byte
unfolding print_char
print_char-attribute c fb s =
    let placed = wrap_line (place c fb) in
    let at = place_lem c 0 fb s in
    let top = scroll_screen_lem placed 0 in
    let moved =
      move_cursor-shown registers (scroll_screen placed).y (scroll_screen placed).x
        (scroll_screen placed) (ground (arith, at, top)) (ground (arith, at, top)) in
    ground (arith, moved, top, at)

cons-Shows :
    (c : ℕ) (cs : List ℕ) (fb g after : FrameBuffer)
    → cell g ≡ cell fb + 1
    → g.attr_byte ≡ fb.attr_byte
    → ((k : ℕ) → g.video_mem k ≡ update fb.video_mem (cell fb) (fb.attr_byte * 2 ^ 8 + c) k)
    → Shows cs g after
    → Shows (c ∷ cs) fb after
cons-Shows c cs fb g after e a m s = record {
  on_screen = s.on_screen;
  attribute = s.attribute ∙ a;
  cursor = omega (arith, s.cursor, e);
  cells = λ k. ground (arith, s.cells k, m k, e, a, head_char k, tail_char k);
}
  where
    head_char : (k : ℕ) → k ≡ cell fb → get_or (c ∷ cs) (k - cell fb) 0 ≡ c
    head_char k d = let z : k - cell fb ≡ 0 = omega arith in rw z refl

    tail_char : (k : ℕ) → cell fb < k → get_or (c ∷ cs) (k - cell fb) 0 ≡ get_or cs (k - cell g) 0
    tail_char k d = let z : k - cell fb ≡ suc (k - cell g) = omega (arith, e) in rw z refl

pub print_chars-Shows :
    (str : List ℕ) (fb : FrameBuffer)
    → IsOnScreen fb
    → All IsPrintable str
    → cell fb + length str < 2000
    → Shows str fb (print_chars str fb)
unfolding print_chars
print_chars-Shows [] fb s p l = record {
  on_screen = s;
  attribute = refl;
  cursor = omega arith;
  cells = λ k. ground arith;
}
print_chars-Shows (c ∷ cs) fb s (p, ps) l =
    let step = λ (k : ℕ). print_char-printed c k fb s p.0 p.1 in
    let first = print_char-IsOnScreen registers c fb s in
    cons-Shows c cs fb (print_char c fb) (print_chars cs (print_char c fb)) (ground (arith, step 0))
      (print_char-attribute c fb s) (λ k. ground (arith, step k))
      (print_chars-Shows cs (print_char c fb) first.0 ps (ground (arith, step 0)))

-- `after` shows the text as a line that begins at the cursor of `before`, and elsewhere what `before`
-- shows. The cursor stands at the start of the next row.
pub record ShowsLine (str : List ℕ) (before after : FrameBuffer) : Type 0 where
  pub on_screen : IsOnScreen after
  pub attribute : after.attr_byte ≡ before.attr_byte
  pub column : after.x ≡ 0
  pub row : after.y ≡ before.y + 1
  pub cells :
      (k : ℕ)
      → after.video_mem k ≡ (
          if leb (cell before) k && ltb k (cell before + length str)
          then before.attr_byte * 2 ^ 8 + get_or str (k - cell before) 0
          else before.video_mem k)

newline :
    (fb : FrameBuffer)
    → IsOnScreen fb
    → fb.y < 24
    → let g = print_char b'\n' fb in
      IsOnScreen g
      × (g.attr_byte ≡ fb.attr_byte)
      × (g.x ≡ 0)
      × (g.y ≡ fb.y + 1)
      × ((k : ℕ) → g.video_mem k ≡ fb.video_mem k)
unfolding print_char place wrap_line
newline fb s l =
    let below = record fb { x = 0; y = fb.y + 1 } in
    let top = λ (k : ℕ). scroll_screen_lem below k in
    let after = scroll_screen below in
    let row : after.y ≡ fb.y + 1 = ground (arith, top 0) in
    let column : after.x ≡ 0 = ground (arith, top 0) in
    let moved =
      move_cursor-shown registers after.y after.x after (omega (arith, row))
        (omega (arith, column)) in
    (
      record {
        column = omega (arith, moved.1, column);
        row = omega (arith, moved.0, row);
        attribute = omega (arith, moved.4, (top 0).3, s.attribute);
      },
      moved.4 ∙ (top 0).3,
      moved.1 ∙ column,
      moved.0 ∙ row,
      λ k. ap (λ (m : ℕ → ℕ). m k) moved.3 ∙ ground (arith, top k),
    )

pub print_chars-append :
    (xs ys : List ℕ) (fb : FrameBuffer)
    → print_chars (xs ++ ys) fb ≡ print_chars ys (print_chars xs fb)
unfolding print_chars
print_chars-append [] ys fb = refl
print_chars-append (x ∷ xs) ys fb = print_chars-append xs ys (print_char x fb)

-- A line that fits behind the cursor, in a row above the last one.
pub print_chars-ShowsLine :
    (str : List ℕ) (fb : FrameBuffer)
    → IsOnScreen fb
    → All IsPrintable str
    → fb.x + length str < 80
    → fb.y < 24
    → ShowsLine str fb (print_chars (str ++ (b'\n' ∷ [])) fb)
unfolding print_chars
print_chars-ShowsLine str fb s p fits l =
    let text = print_chars-Shows str fb s p (omega arith) in
    let g = print_chars str fb in
    let row : g.y ≡ fb.y = omega (arith, text.cursor, text.on_screen.column) in
    let next = newline g text.on_screen (omega (arith, row)) in
    rw (print_chars-append str (b'\n' ∷ []) fb) (record {
      on_screen = next.0;
      attribute = next.1 ∙ text.attribute;
      column = next.2;
      row = omega (arith, next.3, row);
      cells = λ k. next.4 k ∙ text.cells k;
    })
