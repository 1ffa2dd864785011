-- ===== src/Interrupts/Log.antt =====
-- A line of the log on the screen.
use mathlib.Core.List.{append_assoc}
use cosmo.FrameBuffer.{FrameBuffer, print_chars}
use cosmo.FrameBuffer.Line.{IsPrintable, ShowsLine, print_chars-ShowsLine}
use cosmo.FrameBuffer.Print.{IsOnScreen}
use cosmo.Interrupts.Screen.{screen-Writer, print_chars-each}
use cosmo.Logger.Format.{Arg, LogLevel, prefix, log}
use cosmo.Logger.Format.Print.{IsArg, text}
use cosmo.Logger.Format.Whole.{log-Prints}
use cosmo.Memory.{Memory}
use cosmo.Prelude.{ℕ, arith, ◌<◌, ◌≡◌, sym, ap, ◌∙◌, some, List, [], ◌∷◌, ◌++◌, length, All}

-- With the cursor at the start of a row above the last one, and arguments of their C types, whose
-- strings fit an `Arg`, let the
-- text of the format be printable up to the line's end that it closes with, and with the level's
-- prefix shorter than a row. Then `Log` ends, the row shows the prefix and the text in the colours in
-- use, every other cell is as it was, and the cursor stands at the start of the next row.
pub log-ShowsLine :
    (level : LogLevel) (fmt : List ℕ) (args : List Arg) (t : List ℕ) (m : Memory) (fb : FrameBuffer)
    → IsOnScreen fb
    → fb.x ≡ 0
    → fb.y < 24
    → All IsArg args
    → text fmt args ≡ some (t ++ (b'\n' ∷ []))
    → All IsPrintable (prefix level ++ t)
    → length (prefix level ++ t) < 80
    → (m' : Memory) × (g : FrameBuffer) × (log screen-Writer level fmt args m fb ≡ some (m', g))
      × ShowsLine (prefix level ++ t) fb g
unfolding screen-Writer
log-ShowsLine level fmt args t m fb s start l a e p fits =
    let printed = log-Prints screen-Writer level fmt args (t ++ (b'\n' ∷ [])) m fb a e in
    let whole = append_assoc (prefix level) t (b'\n' ∷ []) in
    let line = print_chars-ShowsLine (prefix level ++ t) fb s p (omega arith) l in
    (
      printed.log_buffer,
      print_chars (prefix level ++ t ++ (b'\n' ∷ [])) fb,
      printed.returns
          ∙ ap (λ g. some (printed.log_buffer, g))
              (sym (print_chars-each _ fb) ∙ ap (λ str. print_chars str fb) (sym whole)),
      line,
    )
