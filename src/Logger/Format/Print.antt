-- ===== src/Logger/Format/Print.antt =====
-- The text of a format and its arguments, and each specifier's part of it.
use cosmo.Logger.{set_log_buffer, set_log_buffer_unsigned, set_log_buffer_hex}
use cosmo.Logger.Convert.{decimal, amount}
use cosmo.Logger.Format.{
  Arg, of_char, of_int, of_unsigned, of_str, next_arg, Writer, each, print_log_buffer,
  print_char_arg, print_int_arg, print_unsigned_arg, print_hex_arg, print_str_arg, specifier,
}
use cosmo.Logger.Format.Render.{hex_text, int_text, unsigned-Prints, int-Prints, hex-Prints}
use cosmo.Logger.Options.{◌>>=◌}
use cosmo.Memory.{Memory}
use cosmo.Prelude.{
  ℕ, ◌^◌, ◌<◌, ◌≡◌, ◌==◌, ◌||◌, ◌&&◌, length, ltb, if◌then◌else◌, refl, arith, Option, none, some,
  List, [], ◌∷◌, ◌++◌, All, Bool-cases, inl, inr, ℤ, pos, negsuc,
}

-- The argument's value is one of its C type, and a string fits an `Arg` with its terminator.
abbrev pub IsArg : Arg → Type 0
IsArg (of_char c) = c < 2 ^ 8
IsArg (of_unsigned n) = n < 2 ^ 32
IsArg (of_int (pos n)) = n < 2 ^ 31
IsArg (of_int (negsuc m)) = m < 2 ^ 31
IsArg (of_str s) = length s < 256

-- The value of an argument that is of the type itself. To read it as another type is documented as
-- undefined.
abbrev pub char_of : Arg → Option ℕ
char_of (of_char v) = some v
char_of (of_int v) = none
char_of (of_unsigned v) = none
char_of (of_str v) = none

abbrev pub int_of : Arg → Option ℤ
int_of (of_char v) = none
int_of (of_int v) = some v
int_of (of_unsigned v) = none
int_of (of_str v) = none

abbrev pub unsigned_of : Arg → Option ℕ
unsigned_of (of_char v) = none
unsigned_of (of_int v) = none
unsigned_of (of_unsigned v) = some v
unsigned_of (of_str v) = none

abbrev pub str_of : Arg → Option (List ℕ)
str_of (of_char v) = none
str_of (of_int v) = none
str_of (of_unsigned v) = none
str_of (of_str v) = some v

-- The text of the first argument for each specifier, and the other arguments.
abbrev pub char_text : List Arg → Option (List Arg × List ℕ)
char_text args = do (arg, rest) ← next_arg args; value ← char_of arg; some (rest, value ∷ [])

-- The least `int` has no text, and neither has 0, of which the code prints nothing.
abbrev pub int_arg_text : List Arg → Option (List Arg × List ℕ)
int_arg_text args = do
  (arg, rest) ← next_arg args
  value ← int_of arg
  if ltb 0 (amount value) && ltb (amount value) (2 ^ 31) then some (rest, int_text value) else none

abbrev pub unsigned_text : List Arg → Option (List Arg × List ℕ)
unsigned_text args = do
  (arg, rest) ← next_arg args
  value ← unsigned_of arg
  if ltb 0 value then some (rest, decimal value) else none

abbrev pub hex_arg_text : List Arg → Option (List Arg × List ℕ)
hex_arg_text args = do
  (arg, rest) ← next_arg args
  value ← unsigned_of arg
  some (rest, hex_text value)

abbrev pub str_text : List Arg → Option (List Arg × List ℕ)
str_text args = do (arg, rest) ← next_arg args; value ← str_of arg; some (rest, value)

abbrev pub specifier_text : ℕ → List Arg → Option (List Arg × List ℕ)
specifier_text c args =
    if c == b'c'
    then char_text args
    else if c == b'd'
    then int_arg_text args
    else if c == b'u'
    then unsigned_text args
    else if c == b'x' || c == b'X'
    then hex_arg_text args
    else if c == b's'
    then str_text args
    else some (args, [])

-- The text of a format with its arguments: `none` where an argument is missing or not of the type
-- that its specifier reads, where `%d` or `%u` is to print 0, or `%d` the least `int`, and where the format ends in a lone `%`.
abbrev pub text : List ℕ → List Arg → Option (List ℕ)
text [] args = some []
text (c ∷ []) args = if c == b'%' then none else some (c ∷ [])
text (c ∷ d ∷ fmt) args =
    if c == b'%'
    then specifier_text d args
      >>= (λ (p : List Arg × List ℕ). text fmt p.0 >>= (λ (t : List ℕ). some (p.1 ++ t)))
    else text (d ∷ fmt) args >>= (λ (t : List ℕ). some (c ∷ t))

module _ {ℓ} {W : Type ℓ} (writer : Writer W) where
  -- A specifier prints its text, and leaves the arguments that its text leaves.
  unfoldable pub SpecifierPrints :
      W → Option (List Arg × List ℕ) → Option (List Arg × Memory × W) → Type ℓ
  SpecifierPrints w none result = Unit
  SpecifierPrints w (some (rest, t)) result =
      (m : Memory) × (result ≡ some (rest, m, each writer.print_char t w))

  int_value-prints :
      (v : ℤ) (rest : List Arg) (m : Memory) (w : W)
      → SpecifierPrints w
          (if ltb 0 (amount v) && ltb (amount v) (2 ^ 31) then some (rest, int_text v) else none)
          (print_log_buffer writer (set_log_buffer v 0 m) w
            >>= (λ (r : Memory × W). some (rest, r.0, r.1)))
  unfolding SpecifierPrints
  int_value-prints v rest m w = elim (Bool-cases (ltb 0 (amount v) && ltb (amount v) (2 ^ 31))) [
    | inl e ↦
        let p = int-Prints writer v m w (ground arith) (ground arith) in
        rw e (p.log_buffer, rw p.returns refl)
    | inr e ↦ rw e tt
  ]

  unsigned_value-prints :
      (v : ℕ) (rest : List Arg) (m : Memory) (w : W)
      → v < 2 ^ 32
      → SpecifierPrints w (if ltb 0 v then some (rest, decimal v) else none) (
          print_log_buffer writer (set_log_buffer_unsigned v 0 m) w
          >>= (λ (r : Memory × W). some (rest, r.0, r.1)))
  unfolding SpecifierPrints
  unsigned_value-prints v rest m w l = elim (Bool-cases (ltb 0 v)) [
    | inl e ↦
        let p = unsigned-Prints writer v m w (ground arith) l in
        rw e (p.log_buffer, rw p.returns refl)
    | inr e ↦ rw e tt
  ]

  hex_value-prints :
      (v : ℕ) (rest : List Arg) (m : Memory) (w : W)
      → v < 2 ^ 32
      → SpecifierPrints w (some (rest, hex_text v)) (
          print_log_buffer writer (set_log_buffer_hex v m) w
          >>= (λ (r : Memory × W). some (rest, r.0, r.1)))
  unfolding SpecifierPrints
  hex_value-prints v rest m w l =
      let p = hex-Prints writer v m w l in (p.log_buffer, rw p.returns refl)

  char-prints :
      (args : List Arg) (m : Memory) (w : W)
      → SpecifierPrints w (char_text args) (print_char_arg writer args m w)
  unfolding SpecifierPrints print_char_arg each
  char-prints [] m w = tt
  char-prints (of_char c ∷ rest) m w = (m, refl)
  char-prints (of_int n ∷ rest) m w = tt
  char-prints (of_unsigned n ∷ rest) m w = tt
  char-prints (of_str s ∷ rest) m w = tt

  int-prints :
      (args : List Arg) (m : Memory) (w : W)
      → SpecifierPrints w (int_arg_text args) (print_int_arg writer args m w)
  unfolding SpecifierPrints print_int_arg
  int-prints [] m w = tt
  int-prints (of_char c ∷ rest) m w = tt
  int-prints (of_int n ∷ rest) m w = int_value-prints n rest m w
  int-prints (of_unsigned n ∷ rest) m w = tt
  int-prints (of_str s ∷ rest) m w = tt

  str-prints :
      (args : List Arg) (m : Memory) (w : W)
      → SpecifierPrints w (str_text args) (print_str_arg writer args m w)
  unfolding SpecifierPrints print_str_arg
  str-prints [] m w = tt
  str-prints (of_char c ∷ rest) m w = tt
  str-prints (of_int n ∷ rest) m w = tt
  str-prints (of_unsigned n ∷ rest) m w = tt
  str-prints (of_str s ∷ rest) m w = (m, rw (writer.print_string-each s w) refl)

  unsigned-prints :
      (args : List Arg) (m : Memory) (w : W)
      → All IsArg args
      → SpecifierPrints w (unsigned_text args) (print_unsigned_arg writer args m w)
  unfolding SpecifierPrints print_unsigned_arg
  unsigned-prints [] m w a = tt
  unsigned-prints (of_char c ∷ rest) m w a = tt
  unsigned-prints (of_int n ∷ rest) m w a = tt
  unsigned-prints (of_unsigned n ∷ rest) m w (l, a) = unsigned_value-prints n rest m w l
  unsigned-prints (of_str s ∷ rest) m w a = tt

  hex-prints :
      (args : List Arg) (m : Memory) (w : W)
      → All IsArg args
      → SpecifierPrints w (hex_arg_text args) (print_hex_arg writer args m w)
  unfolding SpecifierPrints print_hex_arg
  hex-prints [] m w a = tt
  hex-prints (of_char c ∷ rest) m w a = tt
  hex-prints (of_int n ∷ rest) m w a = tt
  hex-prints (of_unsigned n ∷ rest) m w (l, a) = hex_value-prints n rest m w l
  hex-prints (of_str s ∷ rest) m w a = tt

  pub specifier-prints :
      (c : ℕ) (args : List Arg) (m : Memory) (w : W)
      → All IsArg args
      → SpecifierPrints w (specifier_text c args) (specifier writer c args m w)
  unfolding SpecifierPrints specifier each
  specifier-prints c args m w a = elim (Bool-cases (c == b'c')) [
    | inl e ↦ rw e (char-prints args m w)
    | inr e ↦ elim (Bool-cases (c == b'd')) [
      | inl f ↦ rw (e, f) (int-prints args m w)
      | inr f ↦ elim (Bool-cases (c == b'u')) [
        | inl g ↦ rw (e, f, g) (unsigned-prints args m w a)
        | inr g ↦ elim (Bool-cases (c == b'x' || c == b'X')) [
          | inl h ↦ rw (e, f, g, h) (hex-prints args m w a)
          | inr h ↦ elim (Bool-cases (c == b's')) [
            | inl i ↦ rw (e, f, g, h, i) (str-prints args m w)
            | inr i ↦ rw (e, f, g, h, i) (m, refl)
          ]
        ]
      ]
    ]
  ]
