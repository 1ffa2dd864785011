-- ===== src/Logger/Format/Text.antt =====
-- Printing the string that a conversion left in the buffer.
use mathlib.Core.Path.{subst}
use cosmo.Libc.Str.Length.{strlen_lem}
use cosmo.Logger.{chars}
use cosmo.Logger.Buffer.{Written, length-chars}
use cosmo.Logger.Format.{Writer, each, print_log_buffer}
use cosmo.Memory.{Memory, load8}
use cosmo.Prelude.{
  ℕ, zero, suc, ◌+◌, ◌<◌, ◌≡◌, ◌≢◌, refl, ap, sym, ◌∙◌, arith, Option, some, List, length, All,
}

chars_nonzero :
    (m : Memory) (i left k : ℕ) → All (λ c. c ≢ 0) (chars m i left) → k < left → load8 m (i + k) ≢ 0
unfolding chars
chars_nonzero m i zero k h l = absurd (omega arith)
chars_nonzero m i (suc left) zero (p, h) l = let e : i + 0 ≡ i = omega arith in rw e p
chars_nonzero m i (suc left) (suc k) (p, h) l =
    let e : i + suc k ≡ i + 1 + k = omega arith in
    rw e (chars_nonzero m (i + 1) left k h (omega arith))

module _ {ℓ} {W : Type ℓ} (writer : Writer W) where
  -- The step ends and has printed the text.
  pub record Prints (text : List ℕ) (w : W) (result : Option (Memory × W)) : Type ℓ where
    pub log_buffer : Memory
    pub returns : result ≡ some (log_buffer, each writer.print_char text w)

  pub print_log_buffer-Prints :
      (text : List ℕ) (result : Option (ℕ × Memory)) (w : W)
      → Written text result
      → All (λ c. c ≢ 0) text
      → length text < 64
      → Prints text w (print_log_buffer writer result w)
  unfolding print_log_buffer
  print_log_buffer-Prints text result w r h l =
      let len : r.len ≡ length text = sym (length-chars r.buffer 0 r.len) ∙ ap length r.string in
      let nonzero : All (λ c. c ≢ 0) (chars r.buffer 0 r.len) =
        subst (λ t. All (λ c. c ≢ 0) t) (sym r.string) h in
      let ends =
        strlen_lem 64 r.buffer 0 r.len (omega arith)
          (let e : 0 + r.len ≡ r.len = omega arith in rw e r.terminated)
          (λ k p. chars_nonzero r.buffer 0 r.len k nonzero p) in
      record {
        log_buffer = r.buffer;
        returns = rw (r.returns, ends, r.string, writer.print_string-each text w) refl;
      }
