-- ===== src/Vmem/Bitmap/Fill.antt =====
-- Bits of a bitmap by bytes, as `memset` fills them.
use cosmo.Bits.{test_bit, test_bit-fields, test_bit-not, test_bit-zero}
use cosmo.Libc.Str.{memset}
use cosmo.Libc.Str.Fill.{memset_lem}
use cosmo.Memory.{Memory, load8, load32}
use cosmo.Vmem.Bitmap.Bit.{bit_at}
use cosmo.Prelude.{
  ℕ, ◌+◌, ◌-◌, ◌*◌, ◌/◌, ◌%◌, ◌^◌, ◌<◌, ◌≡◌, ap, ◌∙◌, arith, ltb, if◌then◌else◌, Bool-cases, inl,
  inr,
}

-- A word's bytes, nested as `test_bit-fields` reads them.
load32-nested :
    (m : Memory) (a : ℕ)
    → load32 m a
      ≡ load8 m a + (load8 m (a + 1) + (load8 m (a + 2) + load8 m (a + 3) * 2 ^ 8) * 2 ^ 8) * 2 ^ 8
unfolding load32
load32-nested m a = omega arith

byte_place :
    (m : Memory) (a j c i : ℕ)
    → j / 8 ≡ c
    → j % 8 ≡ i
    → test_bit (load8 m (a + j / 8)) (j % 8) ≡ test_bit (load8 m (a + c)) i
byte_place m a j c i e f = λ t. test_bit (load8 m (a + e t)) (f t)

-- Bit `j` of a word is bit `j % 8` of its byte `j / 8`.
word_byte :
    (m : Memory) (a j : ℕ)
    → j < 32
    → test_bit (load32 m a) j ≡ test_bit (load8 m (a + j / 8)) (j % 8)
word_byte m a j h =
    let b₀ = load8 m a in
    let b₁ = load8 m (a + 1) in
    let b₂ = load8 m (a + 2) in
    let b₃ = load8 m (a + 3) in
    let top = test_bit-fields 8 b₀ (b₁ + (b₂ + b₃ * 2 ^ 8) * 2 ^ 8) j (omega arith) in
    let middle = test_bit-fields 8 b₁ (b₂ + b₃ * 2 ^ 8) (j - 8) (omega arith) in
    let low = test_bit-fields 8 b₂ b₃ (j - 8 - 8) (omega arith) in
    rw (load32-nested m a) (elim (Bool-cases (ltb j 8)) [
      | inl p ↦
          let place = byte_place m a j 0 j (ground arith) (ground arith) in
          let zero_off : a + 0 ≡ a = omega arith in
          ground (arith, top, place, ap (λ t. test_bit (load8 m t) j) zero_off)
      | inr p ↦ elim (Bool-cases (ltb (j - 8) 8)) [
        | inl q ↦
            let place = byte_place m a j 1 (j - 8) (ground arith) (ground arith) in
            ground (arith, top, middle, place)
        | inr q ↦ elim (Bool-cases (ltb (j - 8 - 8) 8)) [
          | inl r ↦
              let place = byte_place m a j 2 (j - 8 - 8) (ground arith) (ground arith) in
              ground (arith, top, middle, low, place)
          | inr r ↦
              let place = byte_place m a j 3 (j - 8 - 8 - 8) (ground arith) (ground arith) in
              ground (arith, top, middle, low, place)
        ]
      ]
    ])

-- Bit `k` of the bitmap is bit `k % 8` of its byte `k / 8`.
pub bit_at-byte :
    (m : Memory) (bitmap k : ℕ) → bit_at m bitmap k ≡ test_bit (load8 m (bitmap + k / 8)) (k % 8)
unfolding bit_at
bit_at-byte m bitmap k =
    let place : bitmap + 4 * (k / 32) + k % 32 / 8 ≡ bitmap + k / 8 = omega arith in
    let bit : k % 32 % 8 ≡ k % 8 = omega arith in
    word_byte m (bitmap + 4 * (k / 32)) (k % 32) (omega arith) ∙ λ t.
    test_bit (load8 m (place t)) (bit t)

ones : (j : ℕ) → j < 8 → test_bit 255 j ≡ 1
ones j h = omega (arith, test_bit-not 8 0 j (omega arith) h, test_bit-zero j)

-- After `memset` with 0xFF the bits of the bytes that it wrote are ones, and the others are as
-- they were.
pub bit_at-memset :
    (m : Memory) (bitmap size k : ℕ)
    → bit_at (memset m bitmap 0xFF size) bitmap k
      ≡ (if ltb k (8 * size) then 1 else bit_at m bitmap k)
bit_at-memset m bitmap size k =
    let fill = memset_lem m bitmap 0xFF size (bitmap + k / 8) in
    rw (bit_at-byte (memset m bitmap 0xFF size) bitmap k, bit_at-byte m bitmap k)
      (elim (Bool-cases (ltb k (8 * size))) [
        | inl inside ↦
            let e : memset m bitmap 0xFF size (bitmap + k / 8) ≡ 255 = ground (arith, fill) in
            rw (inside, e) (ones (k % 8) (omega arith))
        | inr outside ↦
            let e : memset m bitmap 0xFF size (bitmap + k / 8) ≡ m (bitmap + k / 8) =
              ground (arith, fill) in
            rw (outside, e)
      ])
