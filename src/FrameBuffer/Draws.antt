-- ===== src/FrameBuffer/Draws.antt =====
-- Drawing: calls that leave the screen in order, write to its own cells, and move the cursor.
use mathlib.Core.Path.{subst}
use cosmo.FrameBuffer.{
  FrameBuffer, print_char, print_chars, print_string, set_color, clear_screen, send_position,
  move_cursor, fill, space,
}
use cosmo.FrameBuffer.Cursor.{Crtc, shown, move_cursor-shown}
use cosmo.FrameBuffer.Ports.{print_char-Sends}
use cosmo.FrameBuffer.Print.{IsOnScreen, print_char-IsOnScreen}
use cosmo.FrameBuffer.Scroll.{clear_screen_lem}
use cosmo.PortIo.{History}
use cosmo.Prelude.{
  ℕ, ◌+◌, ◌*◌, ◌<◌, ◌≤◌, ◌^◌, ◌≡◌, refl, arith, sym, ◌∙◌, List, [], ◌∷◌, Option, none, some,
}

-- `after` is `before` with nothing but positions of the cursor sent to the ports.
pub data Quiet (before : History) : History → Type 0 where
  still : Quiet before before
  sent : {h : History} → (p : ℕ) → Quiet before h → Quiet before (send_position p h)

-- What positions of the cursor do not change, no drawing changes.
pub Quiet-keeps {ℓ} :
    {A : Type ℓ} (f : History → A)
    → ((p : ℕ) (h : History) → f (send_position p h) ≡ f h)
    → {before after : History} → Quiet before after
    → f after ≡ f before
Quiet-keeps f k still = refl
Quiet-keeps f k (sent {h} p q) = k p h ∙ Quiet-keeps f k q

pub Quiet-trans : {g h i : History} → Quiet g h → Quiet h i → Quiet g i
Quiet-trans q still = q
Quiet-trans q (sent p r) = sent p (Quiet-trans q r)

-- The screen is in order: the cursor is on it, and the display shows it there.
pub record IsShown (start : Crtc) (fb : FrameBuffer) : Type 0 where
  pub on_screen : IsOnScreen fb
  pub shows : shown start fb.ports ≡ fb.y * 80 + fb.x

pub record Draws (start : Crtc) (before after : FrameBuffer) : Type 0 where
  pub in_order : IsShown start after
  pub quiet : Quiet before.ports after.ports
  pub behind : (k : ℕ) → 2000 ≤ k → after.video_mem k ≡ before.video_mem k

pub Draws-trans :
    {start : Crtc} {a b c : FrameBuffer} → Draws start a b → Draws start b c → Draws start a c
Draws-trans d e = record {
  in_order = e.in_order;
  quiet = Quiet-trans d.quiet e.quiet;
  behind = λ k p. e.behind k p ∙ d.behind k p;
}

pub print_char-Draws :
    (start : Crtc) (c : ℕ) (fb : FrameBuffer) → IsShown start fb → Draws start fb (print_char c fb)
print_char-Draws start c fb s =
    let p = print_char-IsOnScreen start c fb s.on_screen in
    let q = print_char-Sends c fb s.on_screen in
    record {
      in_order = record { on_screen = p.0; shows = p.1 };
      quiet = subst (λ h. Quiet fb.ports h) (sym q.sends) (sent q.position still);
      behind = p.2;
    }

pub print_chars-Draws :
    (start : Crtc) (str : List ℕ) (fb : FrameBuffer)
    → IsShown start fb
    → Draws start fb (print_chars str fb)
unfolding print_chars
print_chars-Draws start [] fb s = record { in_order = s; quiet = still; behind = λ k p. refl }
print_chars-Draws start (c ∷ cs) fb s =
    let first = print_char-Draws start c fb s in
    Draws-trans first (print_chars-Draws start cs (print_char c fb) first.in_order)

pub print_string-Draws :
    (start : Crtc) (str : Option (List ℕ)) (fb : FrameBuffer)
    → IsShown start fb
    → Draws start fb (print_string str fb)
unfolding print_string
print_string-Draws start none fb s = record { in_order = s; quiet = still; behind = λ k p. refl }
print_string-Draws start (some str) fb s = print_chars-Draws start str fb s

pub set_color-Draws :
    (start : Crtc) (fg_color bg_color : ℕ) (fb : FrameBuffer)
    → IsShown start fb
    → Draws start fb (set_color fg_color bg_color fb)
unfolding set_color
set_color-Draws start fg_color bg_color fb s = record {
  in_order = record {
    on_screen = record {
      column = s.on_screen.column;
      row = s.on_screen.row;
      attribute = omega arith;
    };
    shows = s.shows;
  };
  quiet = still;
  behind = λ k p. refl;
}

clear_screen-Quiet : (fb : FrameBuffer) → Quiet fb.ports (clear_screen fb).ports
unfolding clear_screen move_cursor
clear_screen-Quiet fb = sent _ still

-- The screen need not be in order before it is cleared.
pub clear_screen-Draws :
    (start : Crtc) (fb : FrameBuffer) → fb.attr_byte < 2 ^ 8 → Draws start fb (clear_screen fb)
unfolding clear_screen
clear_screen-Draws start fb l =
    let blank = record fb { video_mem = fill (space fb) fb.video_mem 0 2000 } in
    let moved = move_cursor-shown start 0 0 blank (omega arith) (omega arith) in
    record {
      in_order = record {
        on_screen = record {
          column = omega (arith, moved.1);
          row = omega (arith, moved.0);
          attribute = omega (arith, moved.4);
        };
        shows = omega (arith, moved);
      };
      quiet = clear_screen-Quiet fb;
      behind = λ k p. ground (arith, clear_screen_lem fb k);
    }
