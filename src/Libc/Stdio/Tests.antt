-- ===== src/Libc/Stdio/Tests.antt =====
-- A format with each conversion, and the theorems there.
use cosmo.Libc.Stdio.{
  VarArg, of_int, of_str, unfinished, returns, printf, printf_loop, turn, emit, literal_length,
  print, putchar, put_char, put_str,
}
use cosmo.Libc.Stdio.Ends.{printf-ends}
use cosmo.Libc.Stdio.Pieces.{Passes}
use cosmo.Libc.Stdio.Printf.{printf-Passes}
use cosmo.Libc.Stdio.Reference.{formatted}
use cosmo.Prelude.{ℕ, ◌≡◌, ◌≢◌, refl, List, [], ◌∷◌, some, false, pos}

-- `a%c%%%s`, and an unknown conversion at the end.
abbrev format : List ℕ
format = b'a' ∷ b'%' ∷ b'c' ∷ b'%' ∷ b'%' ∷ b'%' ∷ b's' ∷ b'%' ∷ b'd' ∷ []

abbrev args : List VarArg
args = of_int 0x141 ∷ of_str (b'x' ∷ b'y' ∷ []) ∷ []

abbrev text : List ℕ
text = b'a' ∷ 0x41 ∷ b'%' ∷ b'x' ∷ b'y' ∷ b'%' ∷ b'd' ∷ []

format-text : formatted false format args ≡ some text
unfolding formatted
format-text = refl

format-printf : printf format args [] ≡ returns (pos 7) text
unfolding printf printf_loop turn emit literal_length print putchar put_char put_str
format-printf = refl

printf-Passes_example : Passes text 0 [] (printf format args [])
printf-Passes_example = printf-Passes format args text [] format-text

printf-ends_example : printf format [] [] ≢ unfinished
printf-ends_example = printf-ends format [] []
