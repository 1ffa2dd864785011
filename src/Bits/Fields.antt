-- ===== src/Bits/Fields.antt =====
-- Masks, alignment and packed fields as arithmetic.
use Prim.Native.Nat.{bit_or-bitwise}
use native.Mathlib.Nat.{pow-suc, one-le-pow, mod-lt, div-add-mod'}
use cosmo.Bits.Digit.{bit_or_digit, bit_and_digit}
use cosmo.Bits.Laws.{test_bit}
use cosmo.Prelude.{
  ℕ, zero, suc, ◌+◌, ◌-◌, ◌*◌, ◌/◌, ◌%◌, ◌^◌, ◌≤◌, ◌<◌, bit_and, bit_or, ◌≡◌, refl, arith, ap, sym,
  ◌∙◌, ◌↔◌,
}

bit_and-zero : (n a : ℕ) → a ≤ n → bit_and a 0 ≡ 0
bit_and-zero zero zero p = refl
bit_and-zero zero (suc a) p = absurd (omega arith)
bit_and-zero (suc n) zero p = refl
bit_and-zero (suc n) (suc a) p =
    omega (arith, bit_and_digit (suc a) 0, bit_and-zero n (suc a / 2) (omega arith))

bit_or-zero : (n a : ℕ) → a ≤ n → bit_or a 0 ≡ a
bit_or-zero zero zero p = refl
bit_or-zero zero (suc a) p = absurd (omega arith)
bit_or-zero (suc n) zero p = refl
bit_or-zero (suc n) (suc a) p =
    omega (arith, bit_or_digit (suc a) 0, bit_or-zero n (suc a / 2) (omega arith))

zero-bit_or : (a : ℕ) → bit_or 0 a ≡ a
zero-bit_or a = bit_or-bitwise 0 a

-- Fuel `n` bounds both numbers.
bit_or_comm_fuel : (n a b : ℕ) → a ≤ n → b ≤ n → bit_or a b ≡ bit_or b a
bit_or_comm_fuel zero a b p q = let e : a ≡ b = omega arith in rw e
bit_or_comm_fuel (suc n) zero zero p q = refl
bit_or_comm_fuel (suc n) zero (suc b) p q =
    zero-bit_or (suc b) ∙ sym (bit_or-zero (suc b) (suc b) (omega arith))
bit_or_comm_fuel (suc n) (suc a) b p q = omega (
  arith,
  bit_or_digit (suc a) b,
  bit_or_digit b (suc a),
  bit_or_comm_fuel n (suc a / 2) (b / 2) (omega arith) (omega arith),
)

pub bit_or_comm : (a b : ℕ) → bit_or a b ≡ bit_or b a
bit_or_comm a b = bit_or_comm_fuel (a + b) a b (omega arith) (omega arith)

-- `a & (1 << k)` is bit `k` of `a`, in its place.
pub bit_and-pow : (a k : ℕ) → bit_and a (2 ^ k) ≡ test_bit a k * 2 ^ k
unfolding test_bit
bit_and-pow a zero = omega (arith, bit_and_digit a 1, bit_and-zero (a / 2) (a / 2) (omega arith))
bit_and-pow a (suc k) =
    let half : 2 ^ suc k / 2 ≡ 2 ^ k = omega (arith, pow-suc 2 k) in
    let even : 2 ^ suc k % 2 ≡ 0 = omega (arith, pow-suc 2 k) in
    let digit : bit_and a (2 ^ suc k) ≡ bit_and (a / 2) (2 ^ k) * 2 =
      rw (bit_and_digit a (2 ^ suc k), half, even) (omega arith) in
    omega
      (arith, digit, bit_and-pow (a / 2) k, ap (λ (t : ℕ). test_bit (a / 2) k * t) (pow-suc 2 k))

pub bit_and-pow_zero_iff : (a k : ℕ) → (bit_and a (2 ^ k) ≡ 0) ↔ (test_bit a k ≡ 0)
bit_and-pow_zero_iff a k = (
  λ e. grind (arith, bit_and-pow a k, one-le-pow k 2),
  λ e. rw (bit_and-pow a k, e) (omega arith),
)

-- Moving a factor 2 into a field.
two_fold : (q k : ℕ) → q * 2 ^ suc k ≡ q * 2 ^ k * 2
two_fold q k = omega (arith, ap (λ (t : ℕ). q * t) (pow-suc 2 k))

bit_and_low_field : (k q r : ℕ) → r < 2 ^ k → bit_and (q * 2 ^ k + r) (2 ^ k - 1) ≡ r
bit_and_low_field zero q r p =
    omega (arith, bit_and-zero (q * 2 ^ zero + r) (q * 2 ^ zero + r) (omega arith))
bit_and_low_field (suc k) q r p = ground (
  arith,
  pow-suc 2 k,
  one-le-pow k 2,
  two_fold q k,
  bit_and_digit (q * 2 ^ suc k + r) (2 ^ suc k - 1),
  bit_and_low_field k q (r / 2) (omega (arith, pow-suc 2 k)),
)

-- `a & ((1 << k) - 1)` is the remainder.
pub bit_and_low : (k a : ℕ) → bit_and a (2 ^ k - 1) ≡ a % 2 ^ k
bit_and_low k a = ground (
  arith,
  one-le-pow k 2,
  div-add-mod' a (2 ^ k),
  bit_and_low_field k (a / 2 ^ k) (a % 2 ^ k) (mod-lt a (one-le-pow k 2 (omega arith))),
)

-- A mask with `k` low zeros selects from what stands above them.
pub bit_and_above :
    (k q r s : ℕ) → r < 2 ^ k → bit_and (q * 2 ^ k + r) (s * 2 ^ k) ≡ bit_and q s * 2 ^ k
bit_and_above zero q r s p = ground arith
bit_and_above (suc k) q r s p = ground (
  arith,
  pow-suc 2 k,
  two_fold q k,
  two_fold s k,
  two_fold (bit_and q s) k,
  bit_and_digit (q * 2 ^ suc k + r) (s * 2 ^ suc k),
  bit_and_above k q (r / 2) s (omega (arith, pow-suc 2 k)),
)

-- `(q << k) | r` is a sum where `r` fits in `k` bits.
pub bit_or_sum : (k q r : ℕ) → r < 2 ^ k → bit_or (q * 2 ^ k) r ≡ q * 2 ^ k + r
bit_or_sum zero q r p = ground (arith, bit_or-zero (q * 2 ^ zero) (q * 2 ^ zero) (omega arith))
bit_or_sum (suc k) q r p = ground (
  arith,
  pow-suc 2 k,
  two_fold q k,
  bit_or_digit (q * 2 ^ suc k) r,
  bit_or_sum k q (r / 2) (omega (arith, pow-suc 2 k)),
)

-- `r | (q << k)`, the same sum.
pub bit_or_sum_flip : (k q r : ℕ) → r < 2 ^ k → bit_or r (q * 2 ^ k) ≡ q * 2 ^ k + r
bit_or_sum_flip k q r p = bit_or_comm r (q * 2 ^ k) ∙ bit_or_sum k q r p
