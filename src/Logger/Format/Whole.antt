-- ===== src/Logger/Format/Whole.antt =====
-- `Printf` and `Log` against the text of the format and its arguments.
use mathlib.Core.Path.{subst}
use cosmo.Logger.Convert.{decimal, amount}
use cosmo.Logger.Format.{
  Arg, next_arg, Writer, each, printf, specifier, LogLevel, prefix, log, arg_array, of_char, of_int,
  of_unsigned, of_str,
}
use cosmo.Logger.Format.Print.{
  char_of, int_of, unsigned_of, str_of, IsArg, text, specifier_text, SpecifierPrints,
  specifier-prints,
}
use cosmo.Logger.Format.Render.{hex_text, int_text}
use cosmo.Logger.Format.Text.{Prints}
use cosmo.Logger.Options.{◌>>=◌}
use cosmo.Memory.{Memory}
use cosmo.Prelude.{
  ℕ, ◌^◌, ◌≡◌, ◌==◌, ◌||◌, ◌&&◌, ltb, lt→ltb, if◌then◌else◌, refl, ap, sym, ◌∙◌, Option, none, some,
  List, [], ◌∷◌, ◌++◌, All, Bool-cases, inl, inr, ℤ, Bool, true, false, length,
}

pub each-append {ℓ} :
    {W : Type ℓ} (print_char : ℕ → W → W) (xs ys : List ℕ) (w : W)
    → each print_char (xs ++ ys) w ≡ each print_char ys (each print_char xs w)
unfolding each
each-append print_char [] ys w = refl
each-append print_char (x ∷ xs) ys w = each-append print_char xs ys (print_char x w)

-- The arguments that a specifier leaves are still of their types.
Keeps : Option (List Arg × List ℕ) → Type 0
Keeps none = Unit
Keeps (some (rest, t)) = All IsArg rest

value-Keeps :
    {A : Type 0} (value : Option A) (as_text : A → List ℕ) (rest : List Arg)
    → All IsArg rest
    → Keeps (value >>= (λ (v : A). some (rest, as_text v)))
unfolding Keeps
value-Keeps none as_text rest a = tt
value-Keeps (some v) as_text rest a = a

int-Keeps :
    (value : Option ℤ) (rest : List Arg)
    → All IsArg rest
    → Keeps (
        value >>= (λ (v : ℤ).
          if ltb 0 (amount v) && ltb (amount v) (2 ^ 31) then some (rest, int_text v) else none))
unfolding Keeps
int-Keeps none rest a = tt
int-Keeps (some v) rest a = elim (Bool-cases (ltb 0 (amount v) && ltb (amount v) (2 ^ 31))) [
  | inl e ↦ rw e a
  | inr e ↦ rw e tt
]

unsigned-Keeps :
    (value : Option ℕ) (rest : List Arg)
    → All IsArg rest
    → Keeps (value >>= (λ (v : ℕ). if ltb 0 v then some (rest, decimal v) else none))
unfolding Keeps
unsigned-Keeps none rest a = tt
unsigned-Keeps (some v) rest a = elim (Bool-cases (ltb 0 v)) [ inl e ↦ rw e a | inr e ↦ rw e tt ]

if-Keeps :
    (b : Bool) (r s : Option (List Arg × List ℕ)) → Keeps r → Keeps s → Keeps (if b then r else s)
if-Keeps true r s k l = k
if-Keeps false r s k l = l

specifier_text-Keeps : (c : ℕ) (args : List Arg) → All IsArg args → Keeps (specifier_text c args)
unfolding Keeps next_arg
specifier_text-Keeps c [] a = if-Keeps (c == b'c') _ _ tt (
    if-Keeps (c == b'd') _ _ tt (
      if-Keeps (c == b'u') _ _ tt
        (if-Keeps (c == b'x' || c == b'X') _ _ tt (if-Keeps (c == b's') _ _ tt tt))))
specifier_text-Keeps c (arg ∷ rest) (l, a) =
    if-Keeps (c == b'c') _ _ (value-Keeps (char_of arg) (λ v. v ∷ []) rest a) (
      if-Keeps (c == b'd') _ _ (int-Keeps (int_of arg) rest a) (
        if-Keeps (c == b'u') _ _ (unsigned-Keeps (unsigned_of arg) rest a) (
          if-Keeps (c == b'x' || c == b'X') _ _ (value-Keeps (unsigned_of arg) hex_text rest a)
            (if-Keeps (c == b's') _ _ (value-Keeps (str_of arg) (λ v. v) rest a) (l, a)))))

-- The constructors keep values that fit.
pub arg_array-IsArg : (args : List Arg) → All IsArg args → arg_array args ≡ some args
arg_array-IsArg [] a = refl
arg_array-IsArg (of_char c ∷ args) (l, a) = rw (arg_array-IsArg args a) refl
arg_array-IsArg (of_int n ∷ args) (l, a) = rw (arg_array-IsArg args a) refl
arg_array-IsArg (of_unsigned n ∷ args) (l, a) = rw (arg_array-IsArg args a) refl
arg_array-IsArg (of_str s ∷ args) (l, a) = rw (lt→ltb (length s) 256 l, arg_array-IsArg args a) refl

module _ {ℓ} {W : Type ℓ} (writer : Writer W) where
  -- Where there is a text, it is printed.
  unfoldable pub PrintsText : W → Option (List ℕ) → Option (Memory × W) → Type ℓ
  PrintsText w none result = Unit
  PrintsText w (some t) result = Prints writer t w result

  cons-PrintsText :
      (c : ℕ) (w : W) (t : Option (List ℕ)) (result : Option (Memory × W))
      → PrintsText (writer.print_char c w) t result
      → PrintsText w (t >>= (λ (s : List ℕ). some (c ∷ s))) result
  unfolding PrintsText each
  cons-PrintsText c w none result p = tt
  cons-PrintsText c w (some t) result p = record { log_buffer = p.log_buffer; returns = p.returns }

  append-PrintsText :
      (s : List ℕ) (w : W) (t : Option (List ℕ)) (result : Option (Memory × W))
      → PrintsText (each writer.print_char s w) t result
      → PrintsText w (t >>= (λ (u : List ℕ). some (s ++ u))) result
  unfolding PrintsText
  append-PrintsText s w none result p = tt
  append-PrintsText s w (some t) result p = record {
    log_buffer = p.log_buffer;
    returns =
        p.returns ∙ ap (λ v. some (p.log_buffer, v)) (sym (each-append writer.print_char s t w));
  }

  specifier-PrintsText :
      (fmt : List ℕ) (w : W) (s : Option (List Arg × List ℕ))
      (result : Option (List Arg × Memory × W))
      → Keeps s
      → SpecifierPrints writer w s result
      → ((args : List Arg) (m : Memory) (w' : W)
          → All IsArg args
          → PrintsText w' (text fmt args) (printf writer fmt args m w'))
      → PrintsText w
          (s >>= (λ (p : List Arg × List ℕ). text fmt p.0 >>= (λ (t : List ℕ). some (p.1 ++ t))))
          (result
            >>= (λ (after : List Arg × Memory × W). printf writer fmt after.0 after.1 after.2))
  unfolding PrintsText Keeps SpecifierPrints
  specifier-PrintsText fmt w none result a p next = tt
  specifier-PrintsText fmt w (some (rest, t)) result a (m, e) next = rw e (
      append-PrintsText t w (text fmt rest) (printf writer fmt rest m (each writer.print_char t w))
        (next rest m (each writer.print_char t w) a))

  -- `Printf` with arguments of their C types ends, without a step that is undefined, and prints the
  -- text of the format with its arguments, wherever that is defined.
  pub printf-PrintsText :
      (fmt : List ℕ) (args : List Arg) (m : Memory) (w : W)
      → All IsArg args
      → PrintsText w (text fmt args) (printf writer fmt args m w)
  unfolding PrintsText printf each
  printf-PrintsText [] args m w a = record { log_buffer = m; returns = refl }
  printf-PrintsText (c ∷ []) args m w a = elim (Bool-cases (c == b'%')) [
    | inl e ↦ rw e tt
    | inr e ↦ rw e (record { log_buffer = m; returns = refl })
  ]
  printf-PrintsText (c ∷ d ∷ fmt) args m w a = elim (Bool-cases (c == b'%')) [
    | inl e ↦ rw e (
        specifier-PrintsText fmt w (specifier_text d args) (specifier writer d args m w)
          (specifier_text-Keeps d args a) (specifier-prints writer d args m w a)
          (λ args' m' w' a'. printf-PrintsText fmt args' m' w' a'))
    | inr e ↦ rw e (
        cons-PrintsText c w (text (d ∷ fmt) args)
          (printf writer (d ∷ fmt) args m (writer.print_char c w))
          (printf-PrintsText (d ∷ fmt) args m (writer.print_char c w) a))
  ]

  -- `Log` with arguments of their C types, whose strings fit, ends, without a step that is undefined, and prints the
  -- level's prefix and then the text of the format with its arguments, wherever that is defined.
  pub log-PrintsText :
      (level : LogLevel) (fmt : List ℕ) (args : List Arg) (m : Memory) (w : W)
      → All IsArg args
      → PrintsText w
          (text fmt args >>= (λ (t : List ℕ). some (prefix level ++ t)))
          (log writer level fmt args m w)
  unfolding log
  log-PrintsText level fmt args m w a =
      rw (arg_array-IsArg args a, writer.print_string-each (prefix level) w)
        (append-PrintsText (prefix level) w (text fmt args)
          (printf writer fmt args m (each writer.print_char (prefix level) w))
          (printf-PrintsText fmt args m (each writer.print_char (prefix level) w) a))

  -- The same where the text is known.
  pub log-Prints :
      (level : LogLevel) (fmt : List ℕ) (args : List Arg) (t : List ℕ) (m : Memory) (w : W)
      → All IsArg args
      → text fmt args ≡ some t
      → Prints writer (prefix level ++ t) w (log writer level fmt args m w)
  unfolding PrintsText
  log-Prints level fmt args t m w a e =
      subst
        (λ (o : Option (List ℕ)).
          PrintsText w (o >>= (λ (u : List ℕ). some (prefix level ++ u)))
            (log writer level fmt args m w))
        e (log-PrintsText level fmt args m w a)
