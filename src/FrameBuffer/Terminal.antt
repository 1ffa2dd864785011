-- ===== src/FrameBuffer/Terminal.antt =====
-- What the screen promises: a terminal whose cells are numbered in one row, with the cursor at one of
-- the first 2000.
use cosmo.FrameBuffer.{FrameBuffer, update}
use cosmo.FrameBuffer.Line.{cell}
use cosmo.Prelude.{
  ℕ, ◌+◌, ◌-◌, ◌*◌, ◌/◌, ◌%◌, ◌^◌, ◌==◌, ◌&&◌, ltb, leb, Bool, if◌then◌else◌, List, [], ◌∷◌,
}

pub record Terminal : Type 0 where
  pub cells : ℕ → ℕ
  pub position : ℕ
  pub colour : ℕ

-- A character goes into the cursor's cell.
abbrev pub is_printable : ℕ → Bool
is_printable c = leb 32 c && ltb c 128

-- Where a character moves the cursor: a backspace does not leave the row, and a tabulator goes to the
-- next column that four divides.
abbrev pub advance : ℕ → ℕ → ℕ
advance c p =
    if c == 8
    then (if p % 80 == 0 then p else p - 1)
    else if c == b'\t'
    then p / 80 * 80 + (p % 80 + 4) / 4 * 4
    else if c == b'\r'
    then p / 80 * 80
    else if c == b'\n'
    then (p / 80 + 1) * 80
    else if is_printable c
    then p + 1
    else p

-- The text moves up by a row, and the last row is blank.
abbrev pub moved_up : ℕ → (ℕ → ℕ) → ℕ → ℕ
moved_up colour cells k =
    if ltb k 1920 then cells (k + 80) else if ltb k 2000 then colour * 2 ^ 8 + 32 else cells k

abbrev pub write : ℕ → Terminal → ℕ → ℕ
write c t = if is_printable c then update t.cells t.position (t.colour * 2 ^ 8 + c) else t.cells

unfoldable pub type_char : ℕ → Terminal → Terminal
type_char c t =
    let p = advance c t.position in
    if ltb p 2000
    then record t { cells = write c t; position = p }
    else record t { cells = moved_up t.colour (write c t); position = p - 80 }

unfoldable pub type_text : List ℕ → Terminal → Terminal
type_text [] t = t
type_text (c ∷ cs) t = type_text cs (type_char c t)

abbrev pub terminal : FrameBuffer → Terminal
terminal fb = record { cells = fb.video_mem; position = cell fb; colour = fb.attr_byte }
