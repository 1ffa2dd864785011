-- ===== src/Logger/Format.antt =====
-- include/Logger/Logger.h: the arguments, `Printf` and `Log`, over any writer.
pub mod Text
pub mod Print
pub mod Whole
pub mod Typing
pub mod Typed
pub mod Plain
pub mod Render
use cosmo.Logger.Options.{◌>>=◌}
use cosmo.Libc.Str.{strlen}
use cosmo.Logger.{
  log_buffer_size, chars, set_log_buffer, set_log_buffer_unsigned, set_log_buffer_hex,
}
use cosmo.Memory.{Memory}
use cosmo.Prelude.{
  ℕ, ◌+◌, ◌-◌, ◌^◌, ◌≡◌, ◌==◌, ltb, ◌||◌, if◌then◌else◌, Option, none, some, List, [], ◌∷◌, length,
  u8, ℤ, pos, negsuc,
}

-- Printing characters one by one.
unfoldable pub each {ℓ} : {W : Type ℓ} → (ℕ → W → W) → List ℕ → W → W
each print_char [] w = w
each print_char (c ∷ cs) w = each print_char cs (print_char c w)

-- A class with `PrintChar` and `PrintString`, of which the second prints the characters one by one.
pub record Writer {ℓ} (W : Type ℓ) : Type ℓ where
  pub print_char : ℕ → W → W
  pub print_string : List ℕ → W → W
  pub print_string-each : (str : List ℕ) (w : W) → print_string str w ≡ each print_char str w

-- `Arg`, with the union's member in use.
pub data Arg : Type 0 where
  of_char of_unsigned : ℕ → Arg
  of_int : ℤ → Arg
  of_str : List ℕ → Arg

pub data DataType : Type 0 where
  char_type int_type u_int_type str_type : DataType

-- `GetType`. The constructor from a string leaves the type unset.
abbrev pub get_type : Arg → Option DataType
get_type (of_char c) = some char_type
get_type (of_int n) = some int_type
get_type (of_unsigned n) = some u_int_type
get_type (of_str s) = none

-- `kStrBufferSize`.
abbrev pub str_buffer_size : ℕ
str_buffer_size = 256

-- `Arg(const char*)`: the buffer takes 256 characters with the terminator, and a longer string is
-- written behind it.
abbrev pub arg_of_str : List ℕ → Option Arg
arg_of_str value = if ltb (length value) str_buffer_size then some (of_str value) else none

abbrev pub int_of_unsigned : ℕ → ℤ
int_of_unsigned n = if ltb n (2 ^ 31) then pos n else negsuc (2 ^ 32 - 1 - n)

abbrev pub unsigned_of_int : ℤ → ℕ
unsigned_of_int (pos n) = n
unsigned_of_int (negsuc m) = 2 ^ 32 - 1 - m

-- A `char` is signed.
abbrev pub int_of_char : ℕ → ℤ
int_of_char c = if ltb c 128 then pos c else negsuc (255 - c)

-- `GetValue<T>` for the three types, which converts the member that is in use. The constructor of a
-- string leaves the type unset.
unfoldable pub get_char : Arg → Option ℕ
get_char (of_char c) = some c
get_char (of_int n) = some (u8 (unsigned_of_int n))
get_char (of_unsigned n) = some (u8 n)
get_char (of_str s) = none

unfoldable pub get_int : Arg → Option ℤ
get_int (of_char c) = some (int_of_char c)
get_int (of_int n) = some n
get_int (of_unsigned n) = some (int_of_unsigned n)
get_int (of_str s) = none

unfoldable pub get_unsigned : Arg → Option ℕ
get_unsigned (of_char c) = some (unsigned_of_int (int_of_char c))
get_unsigned (of_int n) = some (unsigned_of_int n)
get_unsigned (of_unsigned n) = some n
get_unsigned (of_str s) = none

-- `GetValue` for strings. Other constructors leave the string buffer unset.
unfoldable pub get_str : Arg → Option (List ℕ)
get_str (of_char c) = none
get_str (of_int n) = none
get_str (of_unsigned n) = none
get_str (of_str s) = some s

-- `args[arg_index]` and the arguments behind it. There is nothing behind the last.
unfoldable pub next_arg : List Arg → Option (Arg × List Arg)
next_arg [] = none
next_arg (arg ∷ args) = some (arg, args)

module _ {ℓ} {W : Type ℓ} (writer : Writer W) where
  -- `PrintString(log_buffer_, strlen(log_buffer_))`: the buffer has 64 characters.
  pub print_log_buffer : Option (ℕ × Memory) → W → Option (Memory × W)
  print_log_buffer result w = do
    (i, log_buffer) ← result
    len ← strlen log_buffer_size log_buffer 0
    some (log_buffer, writer.print_string (chars log_buffer 0 len) w)

  -- The cases of the `switch`, with the arguments that are left.
  pub print_char_arg : List Arg → Memory → W → Option (List Arg × Memory × W)
  unfolding get_char next_arg
  print_char_arg args log_buffer w = do
    (arg, rest) ← next_arg args
    value ← get_char arg
    some (rest, log_buffer, writer.print_char value w)

  pub print_int_arg : List Arg → Memory → W → Option (List Arg × Memory × W)
  unfolding print_log_buffer get_int next_arg
  print_int_arg args log_buffer w = do
    (arg, rest) ← next_arg args
    value ← get_int arg
    (log_buffer', w') ← print_log_buffer (set_log_buffer value 0 log_buffer) w
    some (rest, log_buffer', w')

  pub print_unsigned_arg : List Arg → Memory → W → Option (List Arg × Memory × W)
  unfolding print_log_buffer get_unsigned next_arg
  print_unsigned_arg args log_buffer w = do
    (arg, rest) ← next_arg args
    value ← get_unsigned arg
    (log_buffer', w') ← print_log_buffer (set_log_buffer_unsigned value 0 log_buffer) w
    some (rest, log_buffer', w')

  pub print_hex_arg : List Arg → Memory → W → Option (List Arg × Memory × W)
  unfolding print_log_buffer get_unsigned next_arg
  print_hex_arg args log_buffer w = do
    (arg, rest) ← next_arg args
    value ← get_unsigned arg
    (log_buffer', w') ← print_log_buffer (set_log_buffer_hex value log_buffer) w
    some (rest, log_buffer', w')

  pub print_str_arg : List Arg → Memory → W → Option (List Arg × Memory × W)
  unfolding get_str next_arg
  print_str_arg args log_buffer w = do
    (arg, rest) ← next_arg args
    value ← get_str arg
    some (rest, log_buffer, writer.print_string value w)

  -- The `switch` on the character after a `%`. An unknown one takes no argument.
  pub specifier : ℕ → List Arg → Memory → W → Option (List Arg × Memory × W)
  unfolding print_char_arg print_int_arg print_unsigned_arg print_hex_arg print_str_arg
  specifier c args log_buffer w =
      if c == b'c'
      then print_char_arg args log_buffer w
      else if c == b'd'
      then print_int_arg args log_buffer w
      else if c == b'u'
      then print_unsigned_arg args log_buffer w
      else if c == b'x' || c == b'X'
      then print_hex_arg args log_buffer w
      else if c == b's'
      then print_str_arg args log_buffer w
      else some (args, log_buffer, w)

  -- `Printf` on the characters of the format before its terminator. After a `%` at the end the loop
  -- goes on behind the terminator.
  unfoldable pub printf : List ℕ → List Arg → Memory → W → Option (Memory × W)
  printf [] args log_buffer w = some (log_buffer, w)
  printf (c ∷ []) args log_buffer w =
      if c == b'%' then none else some (log_buffer, writer.print_char c w)
  printf (c ∷ d ∷ fmt) args log_buffer w =
      if c == b'%'
      then specifier d args log_buffer w
        >>= (λ (after : List Arg × Memory × W). printf fmt after.0 after.1 after.2)
      else printf (d ∷ fmt) args log_buffer (writer.print_char c w)

-- `LogLevel` and the prefix of each level.
pub data LogLevel : Type 0 where
  info warn error debug : LogLevel

abbrev pub prefix : LogLevel → List ℕ
prefix info = b'[' ∷ b'I' ∷ b'N' ∷ b'F' ∷ b'O' ∷ b']' ∷ b' ' ∷ []
prefix warn = b'[' ∷ b'W' ∷ b'A' ∷ b'R' ∷ b'N' ∷ b']' ∷ b' ' ∷ []
prefix error = b'[' ∷ b'E' ∷ b'R' ∷ b'R' ∷ b'O' ∷ b'R' ∷ b']' ∷ b' ' ∷ []
prefix debug = b'[' ∷ b'D' ∷ b'E' ∷ b'B' ∷ b'U' ∷ b'G' ∷ b']' ∷ b' ' ∷ []

-- `Arg arg_array[] = {args...}`, by the constructors of the arguments' types.
abbrev pub make_arg : Arg → Option Arg
make_arg (of_char c) = some (of_char c)
make_arg (of_int n) = some (of_int n)
make_arg (of_unsigned n) = some (of_unsigned n)
make_arg (of_str s) = arg_of_str s

abbrev pub arg_array : List Arg → Option (List Arg)
arg_array [] = some []
arg_array (arg ∷ args) =
    make_arg arg >>= (λ (a : Arg). arg_array args >>= (λ (rest : List Arg). some (a ∷ rest)))

-- `Log`, on the values that its arguments are made of.
unfoldable pub log {ℓ} :
    {W : Type ℓ} → Writer W → LogLevel → List ℕ → List Arg → Memory → W → Option (Memory × W)
unfolding printf
log writer level fmt args log_buffer w = arg_array args >>= (λ (made : List Arg).
    printf writer fmt made log_buffer (writer.print_string (prefix level) w))

-- `LogInfo`, `LogWarn`, `LogError` and `LogDebug`.
module _ {ℓ} {W : Type ℓ} (writer : Writer W) where
  abbrev pub log_info : List ℕ → List Arg → Memory → W → Option (Memory × W)
  log_info = log writer info

  abbrev pub log_warn : List ℕ → List Arg → Memory → W → Option (Memory × W)
  log_warn = log writer warn

  abbrev pub log_error : List ℕ → List Arg → Memory → W → Option (Memory × W)
  log_error = log writer error

  abbrev pub log_debug : List ℕ → List Arg → Memory → W → Option (Memory × W)
  log_debug = log writer debug
