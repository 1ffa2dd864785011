-- ===== src/Logger/Format/Plain.antt =====
-- Formats without a `%`.
use cosmo.Logger.Format.{Arg, Writer, each, printf, LogLevel, prefix, log}
use cosmo.Logger.Format.Whole.{each-append}
use cosmo.Memory.{Memory}
use cosmo.Prelude.{
  ℕ, ◌≡◌, ◌==◌, ◌&&◌, not, refl, arith, Bool, true, false, some, List, [], ◌∷◌, ◌++◌,
}

abbrev pub is_plain : List ℕ → Bool
is_plain [] = true
is_plain (c ∷ cs) = not (c == b'%') && is_plain cs

module _ {ℓ} {W : Type ℓ} (writer : Writer W) where
  printf-plain :
      (fmt : List ℕ) (args : List Arg) (m : Memory) (w : W)
      → is_plain fmt ≡ true
      → printf writer fmt args m w ≡ some (m, each writer.print_char fmt w)
  unfolding printf each
  printf-plain [] args m w p = refl
  printf-plain (c ∷ []) args m w p = let q : (c == b'%') ≡ false = ground arith in rw q refl
  printf-plain (c ∷ d ∷ fmt) args m w p =
      let q : (c == b'%') ≡ false = ground arith in
      rw q (printf-plain (d ∷ fmt) args m (writer.print_char c w) (ground arith))

  pub log-plain :
      (level : LogLevel) (fmt : List ℕ) (m : Memory) (w : W)
      → is_plain fmt ≡ true
      → log writer level fmt [] m w ≡ some (m, each writer.print_char (prefix level ++ fmt) w)
  unfolding log
  log-plain level fmt m w p =
      rw
        (
          writer.print_string-each (prefix level) w,
          each-append writer.print_char (prefix level) fmt w,
        )
        (printf-plain fmt [] m (each writer.print_char (prefix level) w) p)
