-- ===== src/FrameBuffer/View.antt =====
-- What is on the screen, apart from what was sent to the ports.
use cosmo.FrameBuffer.{
  FrameBuffer, place, wrap_line, scroll_screen, move_cursor, print_char, space, num_cols,
}
use cosmo.Prelude.{
  ℕ, ◌≡◌, ◌==◌, ◌&&◌, ltb, leb, refl, ap, ◌∙◌, Bool, true, false, Bool-cases, inl, inr,
  if◌then◌else◌, [], pos,
}

-- The object with no history.
abbrev pub view : FrameBuffer → FrameBuffer
view fb = record fb { ports = [] }

-- A test apart from the ports.
view-if :
    (b : Bool) (f g f' g' : FrameBuffer)
    → f' ≡ view f
    → g' ≡ view g
    → (if b then f' else g') ≡ view (if b then f else g)
view-if true f g f' g' p q = p
view-if false f g f' g' p q = q

place-view : (c : ℕ) (fb : FrameBuffer) → place c (view fb) ≡ view (place c fb)
unfolding place
place-view c fb = view-if (c == 0x08 && ltb 0 fb.x) _ _ _ _ refl (
    view-if (c == b'\t') _ _ _ _ refl (
      view-if (c == b'\r') _ _ _ _ refl
        (view-if (c == b'\n') _ _ _ _ refl (view-if (leb b' ' c && ltb c 128) _ _ _ _ refl refl))))

wrap_line-view : (fb : FrameBuffer) → wrap_line (view fb) ≡ view (wrap_line fb)
unfolding wrap_line
wrap_line-view fb = view-if (leb num_cols fb.x) _ _ _ _ refl refl

scroll_screen-view : (fb : FrameBuffer) → scroll_screen (view fb) ≡ view (scroll_screen fb)
unfolding scroll_screen space
scroll_screen-view fb = view-if (ltb fb.y 25) _ _ _ _ refl refl

view-move_cursor :
    (row col : ℕ) (fb : FrameBuffer)
    → view (move_cursor (pos row) (pos col) (view fb)) ≡ view (move_cursor (pos row) (pos col) fb)
unfolding move_cursor
view-move_cursor row col fb = elim (Bool-cases (ltb row 25 && ltb col 80)) [
  | inl e ↦ rw e refl
  | inr e ↦ rw e refl
]

pub view-print_char :
    (c : ℕ) (fb : FrameBuffer) → view (print_char c (view fb)) ≡ view (print_char c fb)
unfolding print_char
view-print_char c fb =
    let placed =
      ap (λ (g : FrameBuffer). scroll_screen (wrap_line g)) (place-view c fb)
      ∙ ap scroll_screen (wrap_line-view (place c fb))
      ∙ scroll_screen-view (wrap_line (place c fb)) in
    let after = scroll_screen (wrap_line (place c fb)) in
    ap (λ (g : FrameBuffer). view (move_cursor (pos g.y) (pos g.x) g)) placed
    ∙ view-move_cursor after.y after.x after
