-- ===== src/Logger/Format/Render.antt =====
-- What a format and its arguments are to print, as a text, without a buffer and a writer.
use mathlib.Core.Path.{subst}
use cosmo.Libc.Str.{strlen}
use cosmo.Logger.{chars, set_log_buffer, set_log_buffer_unsigned, set_log_buffer_hex}
use cosmo.Logger.Convert.{
  digit_char, digit_cases, unpadded, unpadded_negative, decimal, hexadecimal, amount, signed,
  set_log_buffer-Written, set_log_buffer_unsigned-Written, set_log_buffer_hex-Written,
}
use cosmo.Logger.Format.{Writer, print_log_buffer}
use cosmo.Logger.Format.Text.{Prints, print_log_buffer-Prints}
use cosmo.Logger.Numeral.{ten-IsBase, sixteen-IsBase, length-numeral, numeral-All}
use cosmo.Memory.{Memory, store8}
use cosmo.Prelude.{
  ℕ, ◌+◌, ◌^◌, ◌<◌, ◌≤◌, ◌≡◌, ◌≢◌, ◌==◌, ap, sym, arith, some, List, ◌∷◌, length, All, Bool-cases,
  inl, inr, ℤ, pos, negsuc,
}

decimal_nonzero : (n : ℕ) → All (λ c. c ≢ 0) (decimal n)
decimal_nonzero n = elim (Bool-cases (n == 0)) [
  | inl e ↦ rw e (λ z. omega arith, tt)
  | inr e ↦ rw e (
      numeral-All (λ c. c ≢ 0) ten-IsBase digit_char
        (λ d l z. ground (arith, digit_cases d (omega arith))) 32 n)
]

decimal_fits : (n : ℕ) → n < 2 ^ 32 → length (decimal n) ≤ 10
decimal_fits n l = elim (Bool-cases (n == 0)) [
  | inl e ↦ rw e (omega arith)
  | inr e ↦ rw e (length-numeral ten-IsBase digit_char 32 10 n (omega arith))
]

hexadecimal_nonzero : (n : ℕ) → All (λ c. c ≢ 0) (hexadecimal n)
hexadecimal_nonzero n = elim (Bool-cases (n == 0)) [
  | inl e ↦ rw e (λ z. omega arith, tt)
  | inr e ↦ rw e (
      numeral-All (λ c. c ≢ 0) sixteen-IsBase digit_char (λ d l z. ground (arith, digit_cases d l))
        32 n)
]

hexadecimal_fits : (n : ℕ) → n < 2 ^ 32 → length (hexadecimal n) ≤ 8
hexadecimal_fits n l = elim (Bool-cases (n == 0)) [
  | inl e ↦ rw e (omega arith)
  | inr e ↦ rw e (length-numeral sixteen-IsBase digit_char 32 8 n (omega arith))
]

-- The texts of the conversions.
abbrev pub hex_text : ℕ → List ℕ
hex_text n = b'0' ∷ b'x' ∷ hexadecimal n

abbrev pub int_text : ℤ → List ℕ
int_text n = signed n (decimal (amount n))

module _ {ℓ} {W : Type ℓ} (writer : Writer W) where
  pub unsigned-Prints :
      (n : ℕ) (m : Memory) (w : W)
      → 0 < n
      → n < 2 ^ 32
      → Prints writer (decimal n) w (print_log_buffer writer (set_log_buffer_unsigned n 0 m) w)
  unsigned-Prints n m w p l =
      print_log_buffer-Prints writer (decimal n) (set_log_buffer_unsigned n 0 m) w
        (unpadded (set_log_buffer_unsigned-Written n 0 m p l (omega arith))) (decimal_nonzero n)
        (omega (arith, decimal_fits n l))

  pub int-Prints :
      (n : ℤ) (m : Memory) (w : W)
      → 0 < amount n
      → amount n < 2 ^ 31
      → Prints writer (int_text n) w (print_log_buffer writer (set_log_buffer n 0 m) w)
  int-Prints (pos n) m w p l =
      print_log_buffer-Prints writer (decimal n) (set_log_buffer (pos n) 0 m) w
        (unpadded (set_log_buffer-Written (pos n) 0 m p l (omega arith))) (decimal_nonzero n)
        (omega (arith, decimal_fits n (omega arith)))
  int-Prints (negsuc n) m w p l =
      print_log_buffer-Prints writer (int_text (negsuc n)) (set_log_buffer (negsuc n) 0 m) w
        (unpadded_negative (set_log_buffer-Written (negsuc n) 0 m p l (omega arith)))
        (λ e. omega arith, decimal_nonzero (n + 1))
        (omega (arith, decimal_fits (n + 1) (omega arith)))

  zero-Prints :
      (m : Memory) (w : W)
      → Prints writer (hex_text 0) w (print_log_buffer writer (set_log_buffer_hex 0 m) w)
  unfolding print_log_buffer set_log_buffer_hex strlen chars
  zero-Prints m w = record {
    log_buffer = _;
    returns =
        ap (λ v. some (store8 (store8 (store8 (store8 m 0 b'0') 1 b'x') 2 b'0') 3 0, v))
          (writer.print_string-each (hex_text 0) w);
  }

  pub hex-Prints :
      (n : ℕ) (m : Memory) (w : W)
      → n < 2 ^ 32
      → Prints writer (hex_text n) w (print_log_buffer writer (set_log_buffer_hex n m) w)
  hex-Prints n m w l = elim (Bool-cases (n == 0)) [
    | inl e ↦
        let zero_case : n ≡ 0 = ground arith in
        subst
          (λ (k : ℕ).
            Prints writer (hex_text k) w (print_log_buffer writer (set_log_buffer_hex k m) w))
          (sym zero_case) (zero-Prints m w)
    | inr e ↦
        print_log_buffer-Prints writer (b'0' ∷ b'x' ∷ hexadecimal n) (set_log_buffer_hex n m) w
          (set_log_buffer_hex-Written n m (ground arith) l)
          (λ e. omega arith, (λ e. omega arith, hexadecimal_nonzero n))
          (omega (arith, hexadecimal_fits n l))
  ]
