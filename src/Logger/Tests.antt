-- ===== src/Logger/Tests.antt =====
-- The logger on an empty buffer, with a writer that collects characters, newest first, and the
-- theorems there.
use cosmo.Logger.{set_log_buffer_unsigned}
use cosmo.Logger.Buffer.{Written, padded}
use cosmo.Logger.Convert.{
  decimal, set_log_buffer_unsigned-Written, ReadsBack, set_log_buffer_unsigned-ReadsBack,
}
use cosmo.Logger.Format.{Arg, of_int, of_str, Writer, each, warn, prefix, log}
use cosmo.Logger.Format.Print.{text}
use cosmo.Logger.Format.Text.{Prints}
use cosmo.Logger.Format.Typing.{well_typed}
use cosmo.Logger.Format.Typed.{log-well_typed}
use cosmo.Logger.Format.Whole.{PrintsText, log-PrintsText}
use cosmo.Logger.Options.{◌>>=◌}
use cosmo.Memory.{Memory}
use cosmo.Prelude.{ℕ, ◌≡◌, refl, arith, List, [], ◌∷◌, ◌++◌, some, negsuc}

abbrev blank : Memory
blank a = 0

abbrev page : Writer (List ℕ)
page = record {
  print_char = λ c w. c ∷ w;
  print_string = each (λ c w. c ∷ w);
  print_string-each = λ str w. refl;
}

set_log_buffer_unsigned-Written_example :
    Written (padded 6 (decimal 2026)) (set_log_buffer_unsigned 2026 6 blank)
set_log_buffer_unsigned-Written_example =
    set_log_buffer_unsigned-Written 2026 6 blank (omega arith) (omega arith) (omega arith)

set_log_buffer_unsigned-ReadsBack_example :
    ReadsBack 4294967295 10 (set_log_buffer_unsigned 4294967295 0 blank)
set_log_buffer_unsigned-ReadsBack_example =
    set_log_buffer_unsigned-ReadsBack 4294967295 blank (omega arith) (omega arith)

-- `%s=%d` of `x` and -5.
abbrev sample : List ℕ
sample = b'%' ∷ b's' ∷ b'=' ∷ b'%' ∷ b'd' ∷ []

abbrev sample_args : List Arg
sample_args = of_str (b'x' ∷ []) ∷ of_int (negsuc 4) ∷ []

log-PrintsText_example :
    PrintsText page []
      (text sample sample_args >>= (λ (t : List ℕ). some (prefix warn ++ t)))
      (log page warn sample sample_args blank [])
log-PrintsText_example =
    log-PrintsText page warn sample sample_args blank [] (omega arith, (omega arith, tt))

log-well_typed_example :
    (t : List ℕ) × (text sample sample_args ≡ some t)
    × Prints page (prefix warn ++ t) [] (log page warn sample sample_args blank [])
unfolding well_typed
log-well_typed_example =
    log-well_typed page warn sample sample_args blank [] (omega arith, (omega arith, tt))
      (tt, ((omega arith, omega arith), tt)) refl
