-- ===== src/FrameBuffer/Tests.antt =====
-- The screen at concrete contents, and the theorems there.
use cosmo.FrameBuffer.{
  FrameBuffer, place, wrap_line, print_char, print_chars, print_string, move_cursor, scroll_screen,
}
use cosmo.FrameBuffer.Cursor.{Crtc, crtc, shown}
use cosmo.FrameBuffer.Refine.{print_string_refines}
use cosmo.FrameBuffer.Terminal.{terminal, type_text}
use cosmo.FrameBuffer.Print.{IsOnScreen, print_char-IsOnScreen, print_string-IsOnScreen}
use cosmo.Prelude.{ℕ, ◌+◌, ◌*◌, ◌≤◌, ◌≡◌, refl, arith, [], ◌∷◌, some}

abbrev registers : Crtc
registers = record { index = 0; high = 0; low = 0 }

-- White on black, each cell its own index, the cursor in the last cell.
abbrev full : FrameBuffer
full = record { video_mem = λ k. k; attr_byte = 0x0F; x = 79; y = 24; ports = [] }

abbrev fresh : FrameBuffer
fresh = record { video_mem = λ k. k; attr_byte = 0x0F; x = 0; y = 0; ports = [] }

full-IsOnScreen : IsOnScreen full
full-IsOnScreen = record { column = omega arith; row = omega arith; attribute = omega arith }

fresh-IsOnScreen : IsOnScreen fresh
fresh-IsOnScreen = record { column = omega arith; row = omega arith; attribute = omega arith }

print_runs :
    let g = print_chars (b'a' ∷ b'\t' ∷ b'b' ∷ b'\n' ∷ []) fresh in
    (g.y ≡ 1) × (g.x ≡ 0) × (g.video_mem 0 ≡ 0x0F61) × (g.video_mem 4 ≡ 0x0F62)
unfolding print_chars print_char move_cursor scroll_screen wrap_line place
print_runs = (refl, refl, refl, refl)

print_char-IsOnScreen_example :
    let g = print_char 0x41 full in
    IsOnScreen g
    × (shown registers g.ports ≡ g.y * 80 + g.x)
    × ((k : ℕ) → 2000 ≤ k → g.video_mem k ≡ full.video_mem k)
print_char-IsOnScreen_example = print_char-IsOnScreen registers 0x41 full full-IsOnScreen

print_string-IsOnScreen_example :
    let g = print_string (some (0x68 ∷ 0x69 ∷ [])) fresh in
    IsOnScreen g
    × (shown registers g.ports ≡ g.y * 80 + g.x)
    × ((k : ℕ) → 2000 ≤ k → g.video_mem k ≡ fresh.video_mem k)
unfolding crtc
print_string-IsOnScreen_example =
    print_string-IsOnScreen registers (some (0x68 ∷ 0x69 ∷ [])) fresh fresh-IsOnScreen refl

-- A tabulator, a backspace and a character behind the last cell.
print_string_refines_example :
    terminal (print_string (some (b'h' ∷ b'\t' ∷ 8 ∷ b'i' ∷ [])) full)
    ≡ type_text (b'h' ∷ b'\t' ∷ 8 ∷ b'i' ∷ []) (terminal full)
print_string_refines_example =
    print_string_refines (b'h' ∷ b'\t' ∷ 8 ∷ b'i' ∷ []) full full-IsOnScreen
