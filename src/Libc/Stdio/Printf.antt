-- ===== src/Libc/Stdio/Printf.antt =====
-- The text that `printf` writes, and its value.
use cosmo.Libc.Stdio.{
  int_max, VarArg, of_int, of_str, Result, returns, turn, put_char, put_str, literal_length, resume,
  emit, printf_loop, printf, puts,
}
use cosmo.Libc.Stdio.Pieces.{Passes, Continues, piece-Passes, literal-Passes}
use cosmo.Libc.Stdio.Reference.{
  formatted, formatted-escape, formatted-char, formatted-str, formatted-unknown, formatted-plain,
  formatted-last,
}
use mathlib.Core.List.{append-nil}
use cosmo.Prelude.{
  ℕ, zero, suc, ◌+◌, ◌≤◌, ◌<◌, ◌≡◌, ◌==◌, true, false, Bool-cases, inl, inr, some, List, [], ◌∷◌,
  ◌++◌, length, length-drop, refl, sym, ap, ◌∙◌, arith, u8, pos,
}

-- At the end of the format.
ends-Passes :
    (text : List ℕ) (written : ℕ) (calls : List ℕ)
    → written ≤ int_max
    → some [] ≡ some text
    → Passes text written calls (returns (pos written) calls)
ends-Passes [] written calls b e = record {
  fits = λ f.
      let none_left : written + 0 ≡ written = omega arith in rw (none_left, append-nil calls) refl;
  overflows = λ o. absurd (omega arith);
}
ends-Passes (c ∷ text) written calls b e = absurd (cc e)

-- What holds of the rounds with less fuel.
abbrev Earlier : ℕ → Type 0
Earlier fuel =
    (format : List ℕ) (args : List VarArg) (text : List ℕ)
    → length format ≤ fuel
    → formatted false format args ≡ some text
    → Continues (printf_loop fuel format args) text

-- The last piece of a format.
last-Passes :
    (fuel : ℕ) (piece text : List ℕ) (args : List VarArg) (written : ℕ) (calls : List ℕ)
    → written ≤ int_max
    → some piece ≡ some text
    → Passes text written calls
        (resume (emit piece (length piece) written calls) (printf_loop fuel [] args))
unfolding printf_loop
last-Passes fuel piece text args written calls b e =
    piece-Passes piece (some []) text written calls _ b (ap some (append-nil piece) ∙ e)
      (λ t f written' calls' b'. ends-Passes t written' calls' b' f)

module _ (fuel : ℕ) (ih : Earlier fuel) (c : ℕ) (written : ℕ) (calls : List ℕ)
    (b : written ≤ int_max) where
  abbrev After : List ℕ → List VarArg → Result
  After cs args =
      let t = turn c cs args written calls in resume t.round (printf_loop fuel t.format t.args)

  escape-Passes :
      (d : ℕ) (ds : List ℕ) (args : List VarArg) (text : List ℕ)
      → length ds < fuel
      → (c == b'%') ≡ true
      → (d == b'%') ≡ true
      → formatted false (c ∷ d ∷ ds) args ≡ some text
      → Passes text written calls (After (d ∷ ds) args)
  unfolding turn
  escape-Passes d ds args text l percent e f =
      rw (percent, e)
        (literal-Passes d ds args text written calls _ b
          (sym (formatted-escape c d ds percent args e) ∙ f)
          (λ t g. ih _ _ t (omega (arith, length-drop (literal_length ds) ds)) g))

  char-Passes :
      (d : ℕ) (ds : List ℕ) (args : List VarArg) (text : List ℕ)
      → length ds < fuel
      → (c == b'%') ≡ true
      → (d == b'%') ≡ false
      → (d == b'c') ≡ true
      → formatted false (c ∷ d ∷ ds) args ≡ some text
      → Passes text written calls (After (d ∷ ds) args)
  unfolding turn put_char formatted
  char-Passes d ds [] text l percent e g f = absurd (ground arith)
  char-Passes d ds (of_str s ∷ args) text l percent e g f = absurd (ground arith)
  char-Passes d ds (of_int n ∷ args) text l percent e g f =
      rw (percent, e, g)
        (piece-Passes (u8 n ∷ []) (formatted false ds args) text written calls _ b
          (sym (formatted-char c d ds percent n args e g) ∙ f)
          (λ t h. ih ds args t (omega arith) h))

  str-Passes :
      (d : ℕ) (ds : List ℕ) (args : List VarArg) (text : List ℕ)
      → length ds < fuel
      → (c == b'%') ≡ true
      → (d == b'%') ≡ false
      → (d == b'c') ≡ false
      → (d == b's') ≡ true
      → formatted false (c ∷ d ∷ ds) args ≡ some text
      → Passes text written calls (After (d ∷ ds) args)
  unfolding turn put_str formatted
  str-Passes d ds [] text l percent e g h f = absurd (ground arith)
  str-Passes d ds (of_int n ∷ args) text l percent e g h f = absurd (ground arith)
  str-Passes d ds (of_str s ∷ args) text l percent e g h f =
      rw (percent, e, g, h)
        (piece-Passes s (formatted false ds args) text written calls _ b
          (sym (formatted-str c d ds percent s args e g h) ∙ f)
          (λ t i. ih ds args t (omega arith) i))

  unknown-Passes :
      (d : ℕ) (ds : List ℕ) (args : List VarArg) (text : List ℕ)
      → (c == b'%') ≡ true
      → (d == b'%') ≡ false
      → (d == b'c') ≡ false
      → (d == b's') ≡ false
      → formatted false (c ∷ d ∷ ds) args ≡ some text
      → Passes text written calls (After (d ∷ ds) args)
  unfolding turn
  unknown-Passes d ds args text percent e g h f =
      rw (percent, e, g, h)
        (last-Passes fuel (c ∷ d ∷ ds) text args written calls b
          (sym (formatted-unknown c d ds percent args e g h) ∙ f))

  percent-Passes :
      (cs : List ℕ) (args : List VarArg) (text : List ℕ)
      → length cs ≤ fuel
      → (c == b'%') ≡ true
      → formatted false (c ∷ cs) args ≡ some text
      → Passes text written calls (After cs args)
  unfolding turn formatted
  percent-Passes [] args text l percent f = rw percent (
      last-Passes fuel (c ∷ []) text args written calls b (sym (formatted-last c args percent) ∙ f))
  percent-Passes (d ∷ ds) args text l percent f = elim (Bool-cases (d == b'%')) [
    | inl e ↦ escape-Passes d ds args text (omega arith) percent e f
    | inr e ↦ elim (Bool-cases (d == b'c')) [
      | inl g ↦ char-Passes d ds args text (omega arith) percent e g f
      | inr g ↦ elim (Bool-cases (d == b's')) [
        | inl h ↦ str-Passes d ds args text (omega arith) percent e g h f
        | inr h ↦ unknown-Passes d ds args text percent e g h f
      ]
    ]
  ]

  turn-Passes :
      (cs : List ℕ) (args : List VarArg) (text : List ℕ)
      → length cs ≤ fuel
      → formatted false (c ∷ cs) args ≡ some text
      → Passes text written calls (After cs args)
  unfolding turn formatted
  turn-Passes cs args text l f = elim (Bool-cases (c == b'%')) [
    | inl e ↦ percent-Passes cs args text l e f
    | inr e ↦ rw e (
        literal-Passes c cs args text written calls _ b (sym (formatted-plain c cs args e) ∙ f)
          (λ t g. ih _ _ t (omega (arith, length-drop (literal_length cs) cs)) g))
  ]

printf_loop-Passes : (fuel : ℕ) → Earlier fuel
unfolding printf_loop formatted
printf_loop-Passes fuel [] args text l e written calls b = ends-Passes text written calls b e
printf_loop-Passes zero (c ∷ cs) args text l e written calls b = absurd (omega arith)
printf_loop-Passes (suc fuel) (c ∷ cs) args text l e written calls b =
    turn-Passes fuel (printf_loop-Passes fuel) c written calls b cs args text (omega arith) e

-- With an argument of the right type for every conversion `printf` calls `putchar` for the characters
-- of its format's text, in their order, and returns their number. Where that is more than an `int`
-- holds it calls it only for the text's beginning and returns -1.
pub printf-Passes :
    (format : List ℕ) (args : List VarArg) (text calls : List ℕ)
    → formatted false format args ≡ some text
    → Passes text 0 calls (printf format args calls)
unfolding printf
printf-Passes format args text calls e =
    printf_loop-Passes (length format) format args text (omega arith) e 0 calls (omega arith)

pub puts-Passes :
    (string calls : List ℕ) → Passes (string ++ (b'\n' ∷ [])) 0 calls (puts string calls)
unfolding formatted
puts-Passes string calls =
    printf-Passes (b'%' ∷ b's' ∷ b'\n' ∷ []) (of_str string ∷ []) (string ++ (b'\n' ∷ [])) calls
      refl
