-- ===== src/Libc/Stdio.antt =====
-- src/libc/stdio: printf, puts and putchar, and src/libc/stdlib/abort.c. `putchar` prints nothing
-- yet: it returns its argument. What can be said of `printf` are its result and its calls of `putchar`,
-- a list of the arguments in their order. A string is the list of its bytes before the terminator.
pub mod Reference
pub mod Pieces
pub mod Printf
pub mod Ends
mod Tests
use cosmo.Prelude.{
  ℕ, zero, suc, ◌+◌, ◌-◌, ◌^◌, ◌==◌, ◌||◌, ltb, not, if◌then◌else◌, Bool, true, false, Option, none,
  some, List, [], ◌∷◌, ◌++◌, length, take, drop, get_or, u8, ℤ, pos, negsuc,
}

-- `INT_MAX`.
abbrev pub int_max : ℕ
int_max = 2 ^ 31 - 1

-- `EOF`.
abbrev pub eof : ℤ
eof = negsuc 0

abbrev pub is_eof : ℤ → Bool
is_eof (negsuc zero) = true
is_eof c = false

-- The arguments of `printf`: an `int`, by its bits, or a string.
pub data VarArg : Type 0 where
  of_int : ℕ → VarArg
  of_str : List ℕ → VarArg

-- What a call comes to, with the calls of `putchar`, by their arguments. It is undefined in C++ to
-- read behind a string, or an argument that is missing or of another type.
pub data Result : Type 0 where
  returns : ℤ → List ℕ → Result
  undefined unfinished : Result

-- `putchar` returns its argument and does nothing else.
pub putchar : ℕ → ℤ
putchar ic = pos ic

-- `print`, with the calls of `putchar` so far.
pub print : List ℕ → ℕ → List ℕ → Option (Bool × List ℕ)
print bytes zero calls = some (true, calls)
print [] (suc length_) calls = none
print (byte ∷ bytes) (suc length_) calls =
    let made = calls ++ (byte ∷ []) in
    let rest = print bytes length_ made in
    if is_eof (putchar byte) then some (false, made) else rest

-- One round of the loop ends the call, or goes on with the characters written.
pub data Round : Type 0 where
  ends : Result → Round
  goes_on : ℕ → List ℕ → Round

abbrev pub printed : Option (Bool × List ℕ) → ℕ → Round
printed none written = ends undefined
printed (some (false, calls)) written = ends (returns (negsuc 0) calls)
printed (some (true, calls)) written = goes_on written calls

-- The end of each of the three branches: the test of what is left of `INT_MAX`, and `print`.
pub emit : List ℕ → ℕ → ℕ → List ℕ → Round
emit bytes amount written calls =
    let maxrem = int_max - written in
    if ltb maxrem amount
    then ends (returns (negsuc 0) calls)
    else printed (print bytes amount calls) (written + amount)

-- The rounds of the inner loop: the characters before the next `%`.
pub literal_length : List ℕ → ℕ
literal_length [] = 0
literal_length (c ∷ cs) = let rest = literal_length cs in if c == b'%' then 0 else suc rest

-- What the next round starts with, and how this one ended.
pub record Turn : Type 0 where
  pub format : List ℕ
  pub args : List VarArg
  pub round : Round

-- `%c`.
pub put_char : List ℕ → List VarArg → ℕ → List ℕ → Turn
put_char format [] written calls = record { format = format; args = []; round = ends undefined }
put_char format (of_str s ∷ args) written calls = record {
  format = format;
  args = args;
  round = ends undefined;
}
put_char format (of_int n ∷ args) written calls = record {
  format = format;
  args = args;
  round = emit (u8 n ∷ []) 1 written calls;
}

-- `%s`.
pub put_str : List ℕ → List VarArg → ℕ → List ℕ → Turn
put_str format [] written calls = record { format = format; args = []; round = ends undefined }
put_str format (of_int n ∷ args) written calls = record {
  format = format;
  args = args;
  round = ends undefined;
}
put_str format (of_str str ∷ args) written calls = record {
  format = format;
  args = args;
  round = emit str (length str) written calls;
}

-- The body of the loop, for a format `c ∷ cs`.
pub turn : ℕ → List ℕ → List VarArg → ℕ → List ℕ → Turn
turn c cs args written calls =
    let next = get_or cs 0 0 in
    if not (c == b'%') || next == b'%'
    then (let literal = if c == b'%' then cs else c ∷ cs in
        let amount = suc (literal_length (drop 1 literal)) in
        record {
          format = drop amount literal;
          args = args;
          round = emit literal amount written calls;
        })
    else if next == b'c'
    then put_char (drop 1 cs) args written calls
    else if next == b's'
    then put_str (drop 1 cs) args written calls
    else record { format = []; args = args; round = emit (c ∷ cs) (length (c ∷ cs)) written calls }

abbrev pub resume : Round → (ℕ → List ℕ → Result) → Result
resume (ends result) continue = result
resume (goes_on written calls) continue = continue written calls

-- The loop, with fuel for its rounds.
pub printf_loop : ℕ → List ℕ → List VarArg → ℕ → List ℕ → Result
printf_loop fuel [] args written calls = returns (pos written) calls
printf_loop zero (c ∷ cs) args written calls = unfinished
printf_loop (suc fuel) (c ∷ cs) args written calls =
    let t = turn c cs args written calls in resume t.round (printf_loop fuel t.format t.args)

-- Every round leaves a shorter format, so that its length is fuel enough.
pub printf : List ℕ → List VarArg → List ℕ → Result
printf format args calls = printf_loop (length format) format args 0 calls

abbrev pub puts : List ℕ → List ℕ → Result
puts string calls = printf (b'%' ∷ b's' ∷ b'\n' ∷ []) (of_str string ∷ []) calls

-- The message of `abort` in the kernel's library, `kernel: panic: abort()` and a new line.
abbrev pub abort_message : List ℕ
abort_message =
    b'k' ∷ b'e' ∷ b'r' ∷ b'n' ∷ b'e' ∷ b'l' ∷ b':' ∷ b' ' ∷ b'p' ∷ b'a' ∷ b'n' ∷ b'i' ∷ b'c' ∷ b':'
    ∷ b' ' ∷ b'a' ∷ b'b' ∷ b'o' ∷ b'r' ∷ b't' ∷ b'(' ∷ b')' ∷ b'\n' ∷ []

-- `abort` up to its endless loop.
abbrev pub abort : List ℕ → Result
abort calls = printf abort_message [] calls
