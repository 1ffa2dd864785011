-- ===== src/Running/Typed.antt =====
-- The keys of scan codes as a text.
use cosmo.FrameBuffer.{FrameBuffer, print_char, print_chars}
use cosmo.FrameBuffer.Line.{print_chars-append}
use cosmo.Keyboard.{print_ascii_char, us_keyboard_layout}
use cosmo.Prelude.{
  ℕ, ◌≡◌, leb, get_or, if◌then◌else◌, refl, sym, ap, ◌∙◌, List, [], ◌∷◌, ◌++◌, Bool-cases, inl, inr,
}
use cosmo.Running.{typed}

-- The characters of the codes' keys, the earliest code first, for the latest code first. The codes
-- from 128 on, which tell that a key was released, have none.
unfoldable pub keys : List ℕ → List ℕ
keys [] = []
keys (code ∷ codes) =
    let rest = keys codes in
    if leb 128 code then rest else rest ++ (get_or us_keyboard_layout code 0 ∷ [])

pub typed-print_chars :
    (codes : List ℕ) (fb : FrameBuffer) → typed codes fb ≡ print_chars (keys codes) fb
unfolding typed keys print_chars print_ascii_char
typed-print_chars [] fb = refl
typed-print_chars (code ∷ codes) fb = elim (Bool-cases (leb 128 code)) [
  | inl e ↦ rw e (typed-print_chars codes fb)
  | inr e ↦ rw e (
      ap (print_char (get_or us_keyboard_layout code 0)) (typed-print_chars codes fb)
      ∙ sym (print_chars-append (keys codes) (get_or us_keyboard_layout code 0 ∷ []) fb))
]
