-- ===== src/FrameBuffer/Scroll.antt =====
-- `ScrollScreen` and `ClearScreen` cell by cell.
use cosmo.FrameBuffer.{
  FrameBuffer, update, shift_up, fill, scroll_screen, clear_screen, space, num_cols, num_rows,
  move_cursor,
}
use cosmo.Prelude.{ℕ, zero, suc, ◌+◌, ◌≡◌, refl, arith, ltb, leb, ◌&&◌, if◌then◌else◌}

shift_up_lem :
    (m : ℕ → ℕ) (i left k : ℕ)
    → shift_up m i left k ≡ (if leb i k && ltb k (i + left) then m (k + num_cols) else m k)
unfolding shift_up
shift_up_lem m i zero k = ground arith
shift_up_lem m i (suc left) k =
    ground (arith, shift_up_lem (update m i (m (i + num_cols))) (i + 1) left k)

pub fill_lem :
    (v : ℕ) (m : ℕ → ℕ) (i left k : ℕ)
    → fill v m i left k ≡ (if leb i k && ltb k (i + left) then v else m k)
unfolding fill
fill_lem v m i zero k = ground arith
fill_lem v m i (suc left) k = ground (arith, fill_lem v (update m i v) (i + 1) left k)

-- The cells after the text moved up by one line, below a blank last line.
abbrev pub scrolled : FrameBuffer → ℕ → ℕ
scrolled fb k =
    if ltb k 1920 then fb.video_mem (k + 80) else if ltb k 2000 then space fb else fb.video_mem k

-- With the cursor below the last row, `ScrollScreen` moves every line up by one, blanks the last
-- one, writes no cell behind the screen, and puts the cursor on the last row. Else it does nothing.
pub scroll_screen_lem :
    (fb : FrameBuffer) (k : ℕ)
    → ((scroll_screen fb).video_mem k
        ≡ (if ltb fb.y num_rows then fb.video_mem k else scrolled fb k))
      × ((scroll_screen fb).y ≡ (if ltb fb.y num_rows then fb.y else 24))
      × ((scroll_screen fb).x ≡ fb.x)
      × ((scroll_screen fb).attr_byte ≡ fb.attr_byte)
      × ((scroll_screen fb).ports ≡ fb.ports)
unfolding scroll_screen
scroll_screen_lem fb k =
    let blank = fill_lem (space fb) (shift_up fb.video_mem 0 1920) 1920 num_cols k in
    let up = shift_up_lem fb.video_mem 0 1920 k in
    (ground (arith, blank, up), ground arith, ground arith, ground arith, ground arith)

-- `ClearScreen` blanks the 2000 cells of the screen in the colours in use, writes no other cell,
-- and puts the cursor at the origin.
pub clear_screen_lem :
    (fb : FrameBuffer) (k : ℕ)
    → ((clear_screen fb).video_mem k ≡ (if ltb k 2000 then space fb else fb.video_mem k))
      × ((clear_screen fb).x ≡ 0)
      × ((clear_screen fb).y ≡ 0)
unfolding clear_screen move_cursor
clear_screen_lem fb k = (ground (arith, fill_lem (space fb) fb.video_mem 0 2000 k), refl, refl)
