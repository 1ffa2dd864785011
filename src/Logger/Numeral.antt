-- ===== src/Logger/Numeral.antt =====
-- The numerals that the logger is to print, most significant digit first, and what they denote. A
-- base comes with the facts on division by it that the digits rest on.
use native.Mathlib.Nat.{pow-suc, pow-zero}
use cosmo.Prelude.{
  ℕ, zero, suc, ◌+◌, ◌*◌, ◌/◌, ◌%◌, ◌^◌, ◌≤◌, ◌<◌, ◌≡◌, ◌==◌, refl, arith, List, [], ◌∷◌, ◌++◌, All,
  if◌then◌else◌, Bool-cases, inl, inr, length, length-append,
}

pub All-append {ℓ κ} :
    {A : Type ℓ} (P : A → Type κ) (xs ys : List A) → All P xs → All P ys → All P (xs ++ ys)
All-append P [] ys h k = k
All-append P (x ∷ xs) ys (p, h) k = (p, All-append P xs ys h k)

pub record IsBase (base : ℕ) : Type 0 where
  pub halves : (n : ℕ) → n / base * 2 ≤ n
  pub splits : (n : ℕ) → n / base * base + n % base ≡ n
  pub rest : (n : ℕ) → n % base < base
  pub shorter : (c n : ℕ) → n < base ^ suc c → n / base < base ^ c

pub ten-IsBase : IsBase 10
ten-IsBase = record {
  halves = λ n. omega arith;
  splits = λ n. omega arith;
  rest = λ n. omega arith;
  shorter = λ c n l. omega (arith, pow-suc 10 c);
}

pub sixteen-IsBase : IsBase 16
sixteen-IsBase = record {
  halves = λ n. omega arith;
  splits = λ n. omega arith;
  rest = λ n. omega arith;
  shorter = λ c n l. omega (arith, pow-suc 16 c);
}

pub shrinks : {base : ℕ} → IsBase base → (fuel n : ℕ) → n < 2 ^ suc fuel → n / base < 2 ^ fuel
shrinks b fuel n l = omega (arith, b.halves n, pow-suc 2 fuel)

-- `n` without leading zeros, empty for zero. `fuel` is a number of digits that suffices.
unfoldable pub numeral : ℕ → (ℕ → ℕ) → ℕ → ℕ → List ℕ
numeral base digit_char zero n = []
numeral base digit_char (suc fuel) n =
    if n == 0 then [] else numeral base digit_char fuel (n / base) ++ (digit_char (n % base) ∷ [])

-- The characters of the digits do not matter above the base.
pub numeral-same :
    {base : ℕ} (b : IsBase base) (f g : ℕ → ℕ)
    → ((d : ℕ) → d < base → f d ≡ g d)
    → (fuel n : ℕ) → numeral base f fuel n ≡ numeral base g fuel n
unfolding numeral
numeral-same b f g h zero n = refl
numeral-same {base} b f g h (suc fuel) n = elim (Bool-cases (n == 0)) [
  | inl e ↦ rw e refl
  | inr e ↦ rw (e, numeral-same b f g h fuel (n / base), h (n % base) (b.rest n)) refl
]

-- The number that a string denotes, after digits that denote `acc`.
unfoldable pub value : ℕ → (ℕ → ℕ) → ℕ → List ℕ → ℕ
value base digit_of acc [] = acc
value base digit_of acc (c ∷ cs) = value base digit_of (acc * base + digit_of c) cs

value-append :
    (base : ℕ) (digit_of : ℕ → ℕ) (acc : ℕ) (xs ys : List ℕ)
    → value base digit_of acc (xs ++ ys) ≡ value base digit_of (value base digit_of acc xs) ys
unfolding value
value-append base digit_of acc [] ys = refl
value-append base digit_of acc (c ∷ cs) ys =
    value-append base digit_of (acc * base + digit_of c) cs ys

-- A numeral denotes its number.
pub value-numeral :
    (base : ℕ) (digit_char digit_of : ℕ → ℕ)
    → IsBase base
    → ((d : ℕ) → d < base → digit_of (digit_char d) ≡ d)
    → (fuel n : ℕ) → n < 2 ^ fuel
    → value base digit_of 0 (numeral base digit_char fuel n) ≡ n
unfolding value numeral
value-numeral base digit_char digit_of b h zero n l = omega arith
value-numeral base digit_char digit_of b h (suc fuel) n l = elim (Bool-cases (n == 0)) [
  | inl e ↦ rw e (ground arith)
  | inr e ↦
      let rest = value-numeral base digit_char digit_of b h fuel (n / base) (shrinks b fuel n l) in
      let last = h (n % base) (b.rest n) in
      rw
        (
          e,
          value-append base digit_of 0 (numeral base digit_char fuel (n / base))
              (digit_char (n % base) ∷ []),
          rest,
          last,
        )
        (b.splits n)
]

-- A number below `base ^ c` has at most `c` digits.
pub length-numeral :
    {base : ℕ} (b : IsBase base) (digit_char : ℕ → ℕ) (fuel c n : ℕ)
    → n < base ^ c
    → length (numeral base digit_char fuel n) ≤ c
unfolding numeral
length-numeral b digit_char zero c n l = omega arith
length-numeral {base} b digit_char (suc fuel) zero n l = ground (arith, pow-zero base)
length-numeral {base} b digit_char (suc fuel) (suc c) n l = elim (Bool-cases (n == 0)) [
  | inl e ↦ rw e (omega arith)
  | inr e ↦
      let rest = length-numeral b digit_char fuel c (n / base) (b.shorter c n l) in
      rw (e, length-append (numeral base digit_char fuel (n / base)) (digit_char (n % base) ∷ []))
        (omega (arith, rest))
]

pub numeral-All {κ} :
    (P : ℕ → Type κ) {base : ℕ} (b : IsBase base) (digit_char : ℕ → ℕ)
    → ((d : ℕ) → d < base → P (digit_char d))
    → (fuel n : ℕ) → All P (numeral base digit_char fuel n)
unfolding numeral
numeral-All P b digit_char h zero n = tt
numeral-All P {base} b digit_char h (suc fuel) n = elim (Bool-cases (n == 0)) [
  | inl e ↦ rw e tt
  | inr e ↦ rw e (
      All-append P (numeral base digit_char fuel (n / base)) (digit_char (n % base) ∷ [])
        (numeral-All P b digit_char h fuel (n / base)) (h (n % base) (b.rest n), tt))
]
