-- ===== src/Bits/Laws.antt =====
-- Bit `k` of a number, and the laws of `|`, `&`, `1 << j` and `~` in terms of it.
use native.Mathlib.Nat.{pow-suc}
use cosmo.Bits.Digit.{bit_or_digit, bit_and_digit, zero-bit_and}
use cosmo.Prelude.{
  ℕ, zero, suc, ◌+◌, ◌*◌, ltb, ap, ◌-◌, ◌/◌, ◌%◌, ◌^◌, ◌≤◌, ◌<◌, min, max, bit_and, bit_or, ◌≡◌,
  refl, arith, ◌==◌, if◌then◌else◌,
}

-- Bit `k` of `a`, as 0 or 1.
unfoldable pub test_bit : ℕ → ℕ → ℕ
test_bit a zero = a % 2
test_bit a (suc k) = test_bit (a / 2) k

pub test_bit-le : (a k : ℕ) → test_bit a k ≤ 1
unfolding test_bit
test_bit-le a zero = omega arith
test_bit-le a (suc k) = test_bit-le (a / 2) k

pub test_bit-or : (a b k : ℕ) → test_bit (bit_or a b) k ≡ max (test_bit a k) (test_bit b k)
unfolding test_bit
test_bit-or a b zero = omega (arith, bit_or_digit a b)
test_bit-or a b (suc k) =
    let half : bit_or a b / 2 ≡ bit_or (a / 2) (b / 2) = omega (arith, bit_or_digit a b) in
    rw half (test_bit-or (a / 2) (b / 2) k)

pub test_bit-and : (a b k : ℕ) → test_bit (bit_and a b) k ≡ min (test_bit a k) (test_bit b k)
unfolding test_bit
test_bit-and a b zero = omega (arith, bit_and_digit a b)
test_bit-and a b (suc k) =
    let half : bit_and a b / 2 ≡ bit_and (a / 2) (b / 2) = omega (arith, bit_and_digit a b) in
    rw half (test_bit-and (a / 2) (b / 2) k)

pub test_bit-zero : (k : ℕ) → test_bit 0 k ≡ 0
unfolding test_bit
test_bit-zero zero = refl
test_bit-zero (suc k) = test_bit-zero k

-- `1 << j` has bit `j` alone.
pub test_bit-pow : (j k : ℕ) → test_bit (2 ^ j) k ≡ (if j == k then 1 else 0)
unfolding test_bit
test_bit-pow zero zero = refl
test_bit-pow zero (suc k) = ground (arith, test_bit-zero k)
test_bit-pow (suc j) zero = ground (arith, pow-suc 2 j)
test_bit-pow (suc j) (suc k) =
    let half : 2 ^ suc j / 2 ≡ 2 ^ j = omega (arith, pow-suc 2 j) in
    rw half (ground (arith, test_bit-pow j k))

-- `~a` on `n` bits.
pub test_bit-not : (n a k : ℕ) → a < 2 ^ n → k < n → test_bit (2 ^ n - 1 - a) k ≡ 1 - test_bit a k
unfolding test_bit
test_bit-not zero a k p q = absurd (omega arith)
test_bit-not (suc n) a zero p q = omega (arith, pow-suc 2 n)
test_bit-not (suc n) a (suc k) p q =
    let half : (2 ^ suc n - 1 - a) / 2 ≡ 2 ^ n - 1 - a / 2 = omega (arith, pow-suc 2 n) in
    rw half (test_bit-not n (a / 2) k (omega (arith, pow-suc 2 n)) (omega arith))

pub bit_or-lt : (n a b : ℕ) → a < 2 ^ n → b < 2 ^ n → bit_or a b < 2 ^ n
bit_or-lt zero zero zero p q = omega arith
bit_or-lt zero zero (suc b) p q = absurd (omega arith)
bit_or-lt zero (suc a) b p q = absurd (omega arith)
bit_or-lt (suc n) a b p q = omega (
  arith,
  pow-suc 2 n,
  bit_or_digit a b,
  bit_or-lt n (a / 2) (b / 2) (omega (arith, pow-suc 2 n)) (omega (arith, pow-suc 2 n)),
)

pub bit_and-lt : (n a b : ℕ) → a < 2 ^ n → bit_and a b < 2 ^ n
bit_and-lt zero zero b p = omega (arith, zero-bit_and b)
bit_and-lt zero (suc a) b p = absurd (omega arith)
bit_and-lt (suc n) a b p = omega (
  arith,
  pow-suc 2 n,
  bit_and_digit a b,
  bit_and-lt n (a / 2) (b / 2) (omega (arith, pow-suc 2 n)),
)

-- A number below `2 ^ n` is determined by its bits.
pub eq_of_bits :
    (n a b : ℕ) → a < 2 ^ n → b < 2 ^ n → ((k : ℕ) → k < n → test_bit a k ≡ test_bit b k) → a ≡ b
unfolding test_bit
eq_of_bits zero a b p q h = omega arith
eq_of_bits (suc n) a b p q h = omega (
  arith,
  h 0 (omega arith),
  eq_of_bits n (a / 2) (b / 2) (omega (arith, pow-suc 2 n)) (omega (arith, pow-suc 2 n))
      (λ k l. h (suc k) (omega arith)),
)

-- The bits of two fields side by side.
pub test_bit-fields :
    (n r q j : ℕ)
    → r < 2 ^ n
    → test_bit (r + q * 2 ^ n) j ≡ (if ltb j n then test_bit r j else test_bit q (j - n))
unfolding test_bit
test_bit-fields zero r q j p =
    let all : r + q * 2 ^ zero ≡ q = omega arith in
    let same : j - 0 ≡ j = omega arith in
    ground (arith, ap (λ t. test_bit t j) all, ap (λ t. test_bit q t) same)
test_bit-fields (suc n) r q zero p =
    ground (arith, pow-suc 2 n, ap (λ (t : ℕ). q * t) (pow-suc 2 n))
test_bit-fields (suc n) r q (suc j) p =
    let half : (r + q * 2 ^ suc n) / 2 ≡ r / 2 + q * 2 ^ n =
      omega (arith, ap (λ (t : ℕ). q * t) (pow-suc 2 n)) in
    let less : suc j - suc n ≡ j - n = omega arith in
    rw (half, less) (ground (arith, test_bit-fields n (r / 2) q j (omega (arith, pow-suc 2 n))))
