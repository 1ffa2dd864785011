-- ===== src/Interrupts/Interleaved.antt =====
-- A line of the log while keys come in: the keyboard's interrupts between two characters that
-- `PrintString` or `Printf` prints. An interrupt in the middle of `PrintChar` is not covered.
use mathlib.Core.Path.{subst}
use cosmo.FrameBuffer.{FrameBuffer, print_char}
use cosmo.FrameBuffer.Cursor.{Crtc}
use cosmo.FrameBuffer.Draws.{IsShown, print_char-Draws}
use cosmo.FrameBuffer.Refine.{print_char_refines}
use cosmo.FrameBuffer.Terminal.{terminal, type_text}
use cosmo.Interrupts.{irq_handler}
use cosmo.Interrupts.Keys.{
  scan_code, acknowledged, irq_handler-key, acknowledged-IsShown, print_ascii_char-Draws,
}
use cosmo.Interrupts.Screen.{screen-Writer}
use cosmo.Irq.{InterruptContext}
use cosmo.Keyboard.{print_ascii_char, us_keyboard_layout}
use cosmo.Logger.Format.{Arg, LogLevel, each, prefix, log}
use cosmo.Logger.Format.Print.{IsArg, text}
use cosmo.Logger.Format.Whole.{log-Prints}
use cosmo.Memory.{Memory}
use cosmo.PortIo.{Hardware}
use cosmo.Prelude.{
  ℕ, ◌≡◌, leb, get_or, if◌then◌else◌, refl, sym, ap, ◌∙◌, Bool-cases, inl, inr, some, List, [], ◌∷◌,
  ◌++◌, All,
}

-- From one screen to another: the characters are printed in their order, and in between the handler
-- runs for the keyboard's line, with the codes in the order in which it reads them.
pub data Printing (after : FrameBuffer) : List ℕ → List ℕ → FrameBuffer → Type 0 where
  printed : Printing after [] [] after
  char :
      {c : ℕ} {cs codes : List ℕ} {fb : FrameBuffer}
      → Printing after cs codes (print_char c fb)
      → Printing after (c ∷ cs) codes fb
  key :
      {code : ℕ} {cs codes : List ℕ} {fb fb' : FrameBuffer} (hardware : Hardware)
      (int_context : InterruptContext) (m m' : Memory)
      → int_context.int_no ≡ 1
      → irq_handler hardware int_context m fb ≡ some (m', fb')
      → scan_code hardware fb ≡ code
      → Printing after cs codes fb'
      → Printing after cs (code ∷ codes) fb

-- The characters of the codes' keys, in order.
unfoldable pub characters : List ℕ → List ℕ
characters [] = []
characters (code ∷ codes) =
    let rest = characters codes in
    if leb 128 code then rest else get_or us_keyboard_layout code 0 ∷ rest

-- The third list has the elements of both others, each in their order.
pub data Merge : List ℕ → List ℕ → List ℕ → Type 0 where
  both_empty : Merge [] [] []
  left : {x : ℕ} {xs ys zs : List ℕ} → Merge xs ys zs → Merge (x ∷ xs) ys (x ∷ zs)
  right : {y : ℕ} {xs ys zs : List ℕ} → Merge xs ys zs → Merge xs (y ∷ ys) (y ∷ zs)

-- The screen is in order and shows what a terminal shows that is typed a merge of both texts.
pub record ShowsMerge (start : Crtc) (cs codes : List ℕ) (before after : FrameBuffer) : Type 0 where
  pub in_order : IsShown start after
  pub merged : List ℕ
  pub merge : Merge cs (characters codes) merged
  pub shows : terminal after ≡ type_text merged (terminal before)

module _ (start : Crtc) where
  char-ShowsMerge :
      (c : ℕ) (cs codes : List ℕ) (fb after : FrameBuffer)
      → IsShown start fb
      → ShowsMerge start cs codes (print_char c fb) after
      → ShowsMerge start (c ∷ cs) codes fb after
  unfolding type_text
  char-ShowsMerge c cs codes fb after s h = record {
    in_order = h.in_order;
    merged = c ∷ h.merged;
    merge = left h.merge;
    shows = h.shows ∙ ap (type_text h.merged) (print_char_refines c fb s.on_screen);
  }

  key-ShowsMerge :
      (code : ℕ) (cs codes : List ℕ) (fb after : FrameBuffer)
      → IsShown start fb
      → ShowsMerge start cs codes (print_ascii_char code fb) after
      → ShowsMerge start cs (code ∷ codes) fb after
  unfolding print_ascii_char characters type_text
  key-ShowsMerge code cs codes fb after s h = elim (Bool-cases (leb 128 code)) [
    | inl e ↦
        let same : print_ascii_char code fb ≡ fb = rw e refl in
        record {
          in_order = h.in_order;
          merged = h.merged;
          merge = rw e h.merge;
          shows = h.shows ∙ ap (λ (g : FrameBuffer). type_text h.merged (terminal g)) same;
        }
    | inr e ↦
        let c = get_or us_keyboard_layout code 0 in
        let same : print_ascii_char code fb ≡ print_char c fb = rw e refl in
        record {
          in_order = h.in_order;
          merged = c ∷ h.merged;
          merge = rw e (right h.merge);
          shows =
              h.shows
              ∙ ap (λ (g : FrameBuffer). type_text h.merged (terminal g)) same
              ∙ ap (type_text h.merged) (print_char_refines c fb s.on_screen);
        }
  ]

  -- The handler's own part.
  key-screen :
      {m' : Memory} {fb' : FrameBuffer} (hardware : Hardware) (int_context : InterruptContext)
      (m : Memory) (fb : FrameBuffer)
      → int_context.int_no ≡ 1
      → irq_handler hardware int_context m fb ≡ some (m', fb')
      → fb' ≡ print_ascii_char (scan_code hardware fb) (acknowledged hardware fb)
  key-screen hardware int_context m fb e r =
      let key = irq_handler-key hardware int_context m fb e in cc

  Printing-ShowsMerge :
      {after fb : FrameBuffer} {cs codes : List ℕ}
      → IsShown start fb
      → Printing after cs codes fb
      → ShowsMerge start cs codes fb after
  unfolding type_text characters
  Printing-ShowsMerge s printed = record {
    in_order = s;
    merged = [];
    merge = both_empty;
    shows = refl;
  }
  Printing-ShowsMerge {after} {fb} s (char {c} {cs} {codes} p) =
      char-ShowsMerge c cs codes fb after s
        (Printing-ShowsMerge (print_char-Draws start c fb s).in_order p)
  Printing-ShowsMerge {after} {fb} s (key {code} {cs} {codes} hardware int_context m m' e r v p) =
      let told = acknowledged hardware fb in
      let told_shown = acknowledged-IsShown start hardware fb s in
      let drawn =
        key-screen hardware int_context m fb e r ∙ ap (λ (x : ℕ). print_ascii_char x told) v in
      let rest =
        Printing-ShowsMerge
          (subst (λ g. IsShown start g) (sym drawn)
            (print_ascii_char-Draws start code told told_shown).in_order)
          p in
      let h =
        key-ShowsMerge code cs codes told after told_shown
          (subst (λ g. ShowsMerge start cs codes g after) drawn rest) in
      record { in_order = h.in_order; merged = h.merged; merge = h.merge; shows = h.shows }

-- Let the screen be in order, and the arguments of a format have their C types, with strings that fit
-- an `Arg`, and let the format have a text. Then `Log` prints the
-- characters of the level's prefix and of the format's text one after the other. Let the keyboard's
-- interrupts come in between two of these characters: then the screen is in order at the end, and
-- shows what a terminal shows that is typed the line's characters and the keys', each in their order.
pub log-ShowsMerge :
    (start : Crtc) (level : LogLevel) (fmt : List ℕ) (args : List Arg) (t : List ℕ) (m : Memory)
    {after fb : FrameBuffer} {codes : List ℕ}
    → All IsArg args
    → text fmt args ≡ some t
    → IsShown start fb
    → Printing after (prefix level ++ t) codes fb
    → (m' : Memory) × (log screen-Writer level fmt args m fb
        ≡ some (m', each print_char (prefix level ++ t) fb))
      × ShowsMerge start (prefix level ++ t) codes fb after
unfolding screen-Writer
log-ShowsMerge start level fmt args t m {fb} a e s p =
    let line = log-Prints screen-Writer level fmt args t m fb a e in
    (line.log_buffer, line.returns, Printing-ShowsMerge start s p)
