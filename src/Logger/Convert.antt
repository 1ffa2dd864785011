-- ===== src/Logger/Convert.antt =====
-- The conversions' buffers against the numerals.
use mathlib.Core.Path.{subst}
use mathlib.Core.List.{append-nil}
use cosmo.Logger.{
  chars, put_digits, pad, set_log_buffer_unsigned, set_log_buffer, set_log_buffer_hex, decimal_char,
  hex_char,
}
use cosmo.Logger.Buffer.{
  length-chars, chars_down, chars_down-store, Written, finish-Written, Digits, put_digits-Digits,
  length-chars_down, zeros, padded, pad_lem,
}
use cosmo.Logger.Numeral.{
  value, value-numeral, length-numeral, numeral-same, ten-IsBase, sixteen-IsBase, numeral,
}
use cosmo.Memory.{Memory, store8}
use cosmo.Prelude.{
  ℕ, ◌+◌, ◌-◌, ◌^◌, ◌≤◌, ◌<◌, ◌≡◌, ◌==◌, refl, ap, sym, ◌∙◌, arith, List, ◌∷◌, Option, some, ℤ, pos,
  negsuc, length, true, false, ltb, zero, suc, [], get_or, if◌then◌else◌,
}

-- The characters of the digits.
abbrev pub digit_chars : List ℕ
digit_chars =
    b'0' ∷ b'1' ∷ b'2' ∷ b'3' ∷ b'4' ∷ b'5' ∷ b'6' ∷ b'7' ∷ b'8' ∷ b'9' ∷ b'A' ∷ b'B' ∷ b'C' ∷ b'D'
    ∷ b'E' ∷ b'F' ∷ []

abbrev pub digit_char : ℕ → ℕ
digit_char d = get_or digit_chars d 0

-- The numeral of a number of 32 bits, without leading zeros.
abbrev pub decimal : ℕ → List ℕ
decimal n = if n == 0 then b'0' ∷ [] else numeral 10 digit_char 32 n

abbrev pub hexadecimal : ℕ → List ℕ
hexadecimal n = if n == 0 then b'0' ∷ [] else numeral 16 digit_char 32 n

pub digit_cases : (d : ℕ) → d < 16 → hex_char d ≡ digit_char d
digit_cases zero l = refl
digit_cases (suc zero) l = refl
digit_cases (suc (suc zero)) l = refl
digit_cases (suc (suc (suc zero))) l = refl
digit_cases (suc (suc (suc (suc zero)))) l = refl
digit_cases (suc (suc (suc (suc (suc zero))))) l = refl
digit_cases (suc (suc (suc (suc (suc (suc zero)))))) l = refl
digit_cases (suc (suc (suc (suc (suc (suc (suc zero))))))) l = refl
digit_cases (suc (suc (suc (suc (suc (suc (suc (suc zero)))))))) l = refl
digit_cases (suc (suc (suc (suc (suc (suc (suc (suc (suc zero))))))))) l = refl
digit_cases (suc (suc (suc (suc (suc (suc (suc (suc (suc (suc zero)))))))))) l = refl
digit_cases (suc (suc (suc (suc (suc (suc (suc (suc (suc (suc (suc zero))))))))))) l = refl
digit_cases (suc (suc (suc (suc (suc (suc (suc (suc (suc (suc (suc (suc zero)))))))))))) l = refl
digit_cases (suc (suc (suc (suc (suc (suc (suc (suc (suc (suc (suc (suc (suc zero))))))))))))) l =
    refl
digit_cases (suc (suc (suc (suc (suc (suc (suc (suc (suc (suc (suc (suc (suc (suc zero))))))))))))))
      l =
    refl
digit_cases
      (suc (suc (suc (suc (suc (suc (suc (suc (suc (suc (suc (suc (suc (suc (suc zero)))))))))))))))
      l =
    refl
digit_cases
      (suc
        (suc (suc (suc (suc (suc (suc (suc (suc (suc (suc (suc (suc (suc (suc (suc d))))))))))))))))
      l =
    absurd (omega arith)

decimal_digits : (d : ℕ) → d < 10 → decimal_char d ≡ digit_char d
decimal_digits d l = ground (arith, digit_cases d (omega arith))

pub decimal_positive : (n : ℕ) → 0 < n → decimal n ≡ numeral 10 digit_char 32 n
decimal_positive n p = let positive : (n == 0) ≡ false = ground arith in rw positive refl

pub hexadecimal_positive : (n : ℕ) → 0 < n → hexadecimal n ≡ numeral 16 digit_char 32 n
hexadecimal_positive n p = let positive : (n == 0) ≡ false = ground arith in rw positive refl

decimal-Digits :
    (n : ℕ) (m : Memory)
    → 0 < n
    → n < 2 ^ 32
    → Digits (decimal n) (put_digits 10 decimal_char 32 n 0 m)
unfolding chars_down
decimal-Digits n m p l =
    let d = put_digits-Digits ten-IsBase decimal_char (λ k. omega arith) 32 n 0 m l in
    record {
      place = d.place;
      buffer = d.buffer;
      returns = d.returns;
      string =
          d.string
          ∙ append-nil (numeral 10 decimal_char 32 n)
          ∙ numeral-same ten-IsBase decimal_char digit_char decimal_digits 32 n
          ∙ sym (decimal_positive n p);
    }

pad-decimal :
    (n digits_required : ℕ) (m : Memory)
    → (d : Digits (decimal n) (put_digits 10 decimal_char 32 n 0 m))
    → chars_down
        (pad d.place (digits_required - d.place) d.buffer)
        (d.place + (digits_required - d.place))
      ≡ padded digits_required (decimal n)
pad-decimal n digits_required m d =
    let len : length (decimal n) ≡ d.place =
      ap length (sym d.string) ∙ length-chars_down d.buffer d.place in
    rw (len, pad_lem d.place (digits_required - d.place) d.buffer, d.string) refl

padded_zero : (text : List ℕ) → padded 0 text ≡ text
unfolding zeros
padded_zero text = let none_left : 0 - length text ≡ 0 = omega arith in rw none_left refl

pub unpadded :
    {text : List ℕ} {r : Option (ℕ × Memory)} → Written (padded 0 text) r → Written text r
unpadded {text} {r} h = subst (λ t. Written t r) (padded_zero text) h

pub unpadded_negative :
    {text : List ℕ} {r : Option (ℕ × Memory)}
    → Written (b'-' ∷ padded 0 text) r
    → Written (b'-' ∷ text) r
unpadded_negative {text} {r} h = subst (λ t. Written (b'-' ∷ t) r) (padded_zero text) h

-- The numeral and its padding fit the buffer.
place_fits :
    (n digits_required : ℕ) (m : Memory)
    → 0 < n
    → n < 2 ^ 32
    → (d : Digits (decimal n) (put_digits 10 decimal_char 32 n 0 m)) → d.place ≤ 10
place_fits n digits_required m p l d =
    let len : length (decimal n) ≡ d.place =
      ap length (sym d.string) ∙ length-chars_down d.buffer d.place in
    omega (
      arith,
      len,
      ap length (decimal_positive n p),
      length-numeral ten-IsBase digit_char 32 10 n (omega arith),
    )

-- `SetLogBuffer` on a number of 32 bits other than 0, with fewer required digits than the buffer has
-- bytes, ends without a step that is undefined, and leaves its decimal numeral, padded with zeros up
-- to the required digits, and the terminator after it.
pub set_log_buffer_unsigned-Written :
    (n digits_required : ℕ) (m : Memory)
    → 0 < n
    → n < 2 ^ 32
    → digits_required < 64
    → Written (padded digits_required (decimal n)) (set_log_buffer_unsigned n digits_required m)
unfolding set_log_buffer_unsigned
set_log_buffer_unsigned-Written n digits_required m p l r =
    let d = decimal-Digits n m p l in
    let inside : ltb (d.place + (digits_required - d.place)) 64 ≡ true =
      ground (arith, place_fits n digits_required m p l d) in
    rw (d.returns, inside)
      (finish-Written (d.place + (digits_required - d.place))
        (pad d.place (digits_required - d.place) d.buffer) _ (pad-decimal n digits_required m d))

abbrev pub amount : ℤ → ℕ
amount (pos n) = n
amount (negsuc m) = m + 1

abbrev pub signed : ℤ → List ℕ → List ℕ
signed (pos n) text = text
signed (negsuc m) text = b'-' ∷ text

-- `SetLogBuffer` on an `int` other than 0 and the least one, with at most 62 required digits, ends, and leaves the decimal numeral of its
-- amount, padded with zeros up to the required digits, behind a `-` if the number is negative, and
-- the terminator after it.
pub set_log_buffer-Written :
    (n : ℤ) (digits_required : ℕ) (m : Memory)
    → 0 < amount n
    → amount n < 2 ^ 31
    → digits_required < 63
    → Written
        (signed n (padded digits_required (decimal (amount n))))
        (set_log_buffer n digits_required m)
unfolding set_log_buffer
set_log_buffer-Written (pos n) digits_required m p l r =
    set_log_buffer_unsigned-Written n digits_required m p (omega arith) (omega arith)
set_log_buffer-Written (negsuc n) digits_required m p l r =
    let d = decimal-Digits (n + 1) m p (omega arith) in
    let at = d.place + (digits_required - d.place) in
    let digits = pad d.place (digits_required - d.place) d.buffer in
    let least : (n + 1 == 2 ^ 31) ≡ false = ground arith in
    let inside : ltb (at + 1) 64 ≡ true =
      ground (arith, place_fits (n + 1) digits_required m p (omega arith) d) in
    rw (least, d.returns, inside)
      (finish-Written (at + 1) (store8 digits at b'-') _ (
        chars_down-store digits at b'-' (omega arith)
        ∙ ap (λ t. b'-' ∷ t) (pad-decimal (n + 1) digits_required m d)))

-- `SetLogBufferHex` on a number of 32 bits other than 0 ends, and leaves `0x`, its hexadecimal
-- numeral, and the terminator after it.
pub set_log_buffer_hex-Written :
    (n : ℕ) (m : Memory)
    → 0 < n
    → n < 2 ^ 32
    → Written (b'0' ∷ b'x' ∷ hexadecimal n) (set_log_buffer_hex n m)
unfolding set_log_buffer_hex chars_down
set_log_buffer_hex-Written n m p l =
    let d = put_digits-Digits sixteen-IsBase hex_char (λ k. ground arith) 32 n 0 m l in
    let text =
      d.string
      ∙ append-nil (numeral 16 hex_char 32 n)
      ∙ numeral-same sixteen-IsBase hex_char digit_char digit_cases 32 n in
    let two : d.place + 2 ≡ d.place + 1 + 1 = omega arith in
    let x = store8 d.buffer d.place b'x' in
    let positive : (n == 0) ≡ false = ground arith in
    rw (d.returns, positive)
      (finish-Written (d.place + 2) (store8 x (d.place + 1) b'0') _ (
        rw two (
          chars_down-store x (d.place + 1) b'0' (omega arith)
          ∙ ap (λ t. b'0' ∷ t)
              (chars_down-store d.buffer d.place b'x' (omega arith) ∙ ap (λ t. b'x' ∷ t) text))))

-- The empty string denotes 0.
some_char :
    (m : Memory) (len n : ℕ) → 0 < n → value 10 (λ c. c - b'0') 0 (chars m 0 len) ≡ n → 0 < len
unfolding value chars
some_char m zero n p e = absurd (omega (arith, e))
some_char m (suc len) n p e = omega arith

-- A conversion that ended, with a string of at most `bound` digits that denotes `n`.
pub record ReadsBack (n bound : ℕ) (result : Option (ℕ × Memory)) : Type 0 where
  pub len : ℕ
  pub buffer : Memory
  pub returns : result ≡ some (len, buffer)
  pub reads : value 10 (λ c. c - b'0') 0 (chars buffer 0 len) ≡ n
  pub some_digit : 0 < len
  pub fits : len ≤ bound

-- The string that `SetLogBuffer` leaves for a number of 32 bits other than 0, without required
-- digits, has one to ten characters and denotes that number.
pub set_log_buffer_unsigned-ReadsBack :
    (n : ℕ) (m : Memory) → 0 < n → n < 2 ^ 32 → ReadsBack n 10 (set_log_buffer_unsigned n 0 m)
unfolding value
set_log_buffer_unsigned-ReadsBack n m p l =
    let w = unpadded (set_log_buffer_unsigned-Written n 0 m p l (omega arith)) in
    let len = sym (length-chars w.buffer 0 w.len) ∙ ap length w.string in
    let denotes : value 10 (λ c. c - b'0') 0 (chars w.buffer 0 w.len) ≡ n =
      rw (w.string, decimal_positive n p)
        (value-numeral 10 digit_char (λ c. c - b'0') ten-IsBase
          (λ d p. omega (arith, decimal_digits d p)) 32 n l) in
    record {
      len = w.len;
      buffer = w.buffer;
      returns = w.returns;
      reads = denotes;
      some_digit = some_char w.buffer w.len n p denotes;
      fits = omega (
        arith,
        len,
        ap length (decimal_positive n p),
        length-numeral ten-IsBase digit_char 32 10 n (omega arith),
      );
    }
