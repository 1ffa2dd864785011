-- ===== src/FrameBuffer/Cursor.antt =====
-- The cursor registers of the display controller: an index register selects the register that the
-- data port writes, and the position is in registers 14 and 15. This is the hardware that
-- `MoveCursor` talks to.
use cosmo.Bits.{bit_and_low}
use cosmo.FrameBuffer.{FrameBuffer, send_position, move_cursor}
use cosmo.PortIo.{wrote, got, History}
use cosmo.Prelude.{
  ℕ, ◌+◌, ◌*◌, ◌/◌, ◌^◌, ◌<◌, ◌≡◌, ◌==◌, refl, arith, [], ◌∷◌, if◌then◌else◌, ltb, ◌&&◌, true, u16,
  pos,
}

pub record Crtc : Type 0 where
  pub index : ℕ
  pub high : ℕ
  pub low : ℕ

-- The registers after a history, from a state at its beginning.
unfoldable pub crtc : Crtc → History → Crtc
crtc start [] = start
crtc start (got port v ∷ h) = crtc start h
crtc start (wrote port v ∷ h) =
    let r = crtc start h in
    if port == 0x3D4
    then record r { index = v }
    else if port == 0x3D5 && r.index == 14
    then record r { high = v }
    else if port == 0x3D5 && r.index == 15
    then record r { low = v }
    else r

-- The cell at which the display shows the cursor.
abbrev pub shown : Crtc → History → ℕ
shown start h = (crtc start h).high * 2 ^ 8 + (crtc start h).low

send_position-shown :
    (start : Crtc) (position : ℕ) (h : History)
    → position < 2 ^ 16
    → shown start (send_position position h) ≡ position
unfolding send_position crtc
send_position-shown start position h l =
    omega (arith, bit_and_low 8 (position / 2 ^ 8), bit_and_low 8 position)

-- At a place on the screen `MoveCursor` puts the cursor there, and the display shows it there.
pub move_cursor-shown :
    (start : Crtc) (row col : ℕ) (fb : FrameBuffer)
    → row < 25
    → col < 80
    → let g = move_cursor (pos row) (pos col) fb in
      (g.y ≡ row)
      × (g.x ≡ col)
      × (shown start g.ports ≡ row * 80 + col)
      × (g.video_mem ≡ fb.video_mem)
      × (g.attr_byte ≡ fb.attr_byte)
unfolding move_cursor
move_cursor-shown start row col fb p q =
    let on_screen : (ltb row 25 && ltb col 80) ≡ true = ground arith in
    let cell : u16 (row * 80 + col) ≡ row * 80 + col = omega arith in
    rw (on_screen, cell)
      (refl, refl, send_position-shown start (row * 80 + col) fb.ports (omega arith), refl, refl)
