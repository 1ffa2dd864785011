-- ===== src/Logger.antt =====
-- src/Logger/Logger.cc and include/Logger/Logger.h. The logger's scratch space is a memory of its
-- own that starts at address 0. A writer is any class with `PrintChar` and `PrintString`. A result
-- `none` is a step that C++ leaves undefined, or a loop that its fuel did not suffice for.
pub mod Options
pub mod Format
pub mod Reverse
pub mod Numeral
pub mod Buffer
pub mod Convert
mod Tests
use cosmo.Libc.Str.{strlen}
use Options.{◌>>=◌}
use cosmo.Memory.{Memory, load8, store8}
use cosmo.Prelude.{
  ℕ, zero, suc, ◌+◌, ◌-◌, ◌*◌, ◌/◌, ◌%◌, ◌^◌, ◌==◌, ltb, if◌then◌else◌, Option, none, some, List,
  [], ◌∷◌, ℤ, pos, negsuc,
}

-- The `left` characters from `i` on.
unfoldable pub chars : Memory → ℕ → ℕ → List ℕ
chars m i zero = []
chars m i (suc left) = load8 m i ∷ chars m (i + 1) left

-- The loop of `LogBufferReverse`. Its `j` falls in every round.
pub reverse_from : Memory → ℕ → ℕ → Memory
reverse_from log_buffer i zero = log_buffer
reverse_from log_buffer i (suc j) =
    if ltb i (suc j)
    then reverse_from
        (store8 (store8 log_buffer i (load8 log_buffer (suc j))) (suc j) (load8 log_buffer i))
        (i + 1) j
    else log_buffer

unfoldable pub log_buffer_reverse : Memory → ℕ → ℤ → Memory
unfolding reverse_from
log_buffer_reverse log_buffer i (pos j) = reverse_from log_buffer i j
log_buffer_reverse log_buffer i (negsuc j) = log_buffer

-- `i - 1`.
abbrev before : ℕ → ℤ
before zero = negsuc 0
before (suc i) = pos i

-- The loops that extract the digits of `n`, with the base and the character of a digit.
pub put_digits : ℕ → (ℕ → ℕ) → ℕ → ℕ → ℕ → Memory → Option (ℕ × Memory)
put_digits base digit_char zero n i log_buffer = if n == 0 then some (i, log_buffer) else none
put_digits base digit_char (suc fuel) n i log_buffer =
    if n == 0
    then some (i, log_buffer)
    else put_digits base digit_char fuel (n / base) (i + 1)
        (store8 log_buffer i (digit_char (n % base)))

abbrev pub decimal_char : ℕ → ℕ
decimal_char digit = b'0' + digit

abbrev pub hex_char : ℕ → ℕ
hex_char digit = if ltb digit 10 then digit + 48 else digit + 55

-- The rounds that pad with zeros.
pub pad : ℕ → ℕ → Memory → Memory
pad i zero log_buffer = log_buffer
pad i (suc left) log_buffer = pad (i + 1) left (store8 log_buffer i b'0')

-- The terminator at `i`, the reversal, and the length.
abbrev finish : ℕ → Memory → ℕ × Memory
finish i log_buffer = (i, log_buffer_reverse (store8 log_buffer i 0) 0 (before i))

-- `kLogBufferSize`.
abbrev pub log_buffer_size : ℕ
log_buffer_size = 64

-- The same for a string that fits the buffer with its terminator. A longer one is written behind the
-- buffer.
abbrev finish_within : ℕ → Memory → Option (ℕ × Memory)
finish_within i log_buffer = if ltb i log_buffer_size then some (finish i log_buffer) else none

-- A number of 32 bits has fewer than 32 digits.
abbrev pub digit_fuel : ℕ
digit_fuel = 32

-- `SetLogBuffer(unsigned int n, int digits_required)`, for digits that are not negative.
unfoldable pub set_log_buffer_unsigned : ℕ → ℕ → Memory → Option (ℕ × Memory)
unfolding put_digits pad log_buffer_reverse
set_log_buffer_unsigned n digits_required log_buffer = do
  (i, digits) ← put_digits 10 decimal_char digit_fuel n 0 log_buffer
  finish_within (i + (digits_required - i)) (pad i (digits_required - i) digits)

-- `SetLogBuffer(int n, int digits_required)`. The negation of the least `int` is undefined.
unfoldable pub set_log_buffer : ℤ → ℕ → Memory → Option (ℕ × Memory)
unfolding put_digits pad log_buffer_reverse set_log_buffer_unsigned
set_log_buffer (pos n) digits_required log_buffer =
    set_log_buffer_unsigned n digits_required log_buffer
set_log_buffer (negsuc m) digits_required log_buffer = if m + 1 == 2 ^ 31 then none else do
  (i, digits) ← put_digits 10 decimal_char digit_fuel (m + 1) 0 log_buffer
  let padded = pad i (digits_required - i) digits
  let at = i + (digits_required - i)
  finish_within (at + 1) (store8 padded at b'-')

unfoldable pub set_log_buffer_hex : ℕ → Memory → Option (ℕ × Memory)
unfolding put_digits log_buffer_reverse
set_log_buffer_hex n log_buffer =
    if n == 0
    then some (1, store8 (store8 (store8 (store8 log_buffer 0 b'0') 1 b'x') 2 b'0') 3 0)
    else do
      (i, digits) ← put_digits 16 hex_char digit_fuel n 0 log_buffer
      some (finish (i + 2) (store8 (store8 digits i b'x') (i + 1) b'0'))
