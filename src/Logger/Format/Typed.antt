-- ===== src/Logger/Format/Typed.antt =====
-- `Printf` and `Log` on formats that fit the types of their arguments, and on others.
use cosmo.Logger.Format.{Arg, Writer, LogLevel, prefix, log}
use cosmo.Logger.Format.Print.{IsArg, text}
use cosmo.Logger.Format.Text.{Prints}
use cosmo.Logger.Format.Whole.{log-Prints}
use cosmo.Memory.{Memory}
use cosmo.Prelude.{ℕ, ◌≡◌, some, List, ◌++◌, map, All, All-both, true}
use cosmo.Logger.Format.Typing.{type_of, well_typed, IsPrintable, well_typed-text}

module _ {ℓ} {W : Type ℓ} (writer : Writer W) where
  -- With arguments of their C types, strings that fit an `Arg`, no number 0 and not the least `int`:
  -- where each specifier of the format finds an argument of the very type that it reads, `Log` ends
  -- without a step that is undefined, and prints the level's prefix and a text of the format with
  -- its arguments.
  pub log-well_typed :
      (level : LogLevel) (fmt : List ℕ) (args : List Arg) (m : Memory) (w : W)
      → All IsArg args
      → All IsPrintable args
      → well_typed fmt (map type_of args) ≡ true
      → (t : List ℕ) × (text fmt args ≡ some t)
        × Prints writer (prefix level ++ t) w (log writer level fmt args m w)
  log-well_typed level fmt args m w a l e =
      let (t, shown) = well_typed-text fmt args (All-both IsArg IsPrintable args a l) e in
      (t, shown, log-Prints writer level fmt args t m w a shown)
