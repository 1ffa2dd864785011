-- ===== src/Vmem/Bitmap/Bit.antt =====
-- A bitmap as the sequence of its bits, and what setting, clearing and testing one does to it.
use native.Mathlib.Nat.{pow-le-pow_right}
use cosmo.Bits.{
  test_bit, test_bit-le, test_bit-or, test_bit-and, test_bit-pow, test_bit-not,
  bit_and-pow_zero_iff, bit_or-lt, bit_and-lt,
}
use cosmo.Memory.{
  Memory, load32, store32, load32-lt, load32-store32_self, load32-store32_ne, load8-store32_ne,
}
use cosmo.Vmem.Bitmap.{word_address, bitmap_set, bitmap_unset, bitmap_test}
use cosmo.Prelude.{
  ℕ, ◌+◌, ◌*◌, ◌/◌, ◌%◌, ◌^◌, ◌≤◌, ◌<◌, not32, ◌==◌, ◌≡◌, if◌then◌else◌, arith, ◌⊎◌, Bool-cases,
  inl, inr, ◌≢◌, u32, ap, ◌↔◌,
}

-- Bit `k` of the bitmap.
unfoldable pub bit_at : Memory → ℕ → ℕ → ℕ
bit_at m bitmap k = test_bit (load32 m (word_address bitmap (k / 32))) (k % 32)

pub bit_at-le : (m : Memory) (bitmap k : ℕ) → bit_at m bitmap k ≤ 1
unfolding bit_at
bit_at-le m bitmap k = test_bit-le _ _

pub pow-lt : (j : ℕ) → j < 32 → 2 ^ j < 2 ^ 32
pow-lt j h = omega (arith, pow-le-pow_right {n = 2} (omega arith) {i = j} {j = 31} (omega arith))

-- Storing one word of the bitmap changes the bits of that word alone.
bit_at-store32 :
    (m : Memory) (bitmap i v k : ℕ)
    → v < 2 ^ 32
    → bit_at (store32 m (word_address bitmap i) v) bitmap k
      ≡ (if i == k / 32 then test_bit v (k % 32) else bit_at m bitmap k)
unfolding bit_at
bit_at-store32 m bitmap i v k p = elim (Bool-cases (i == k / 32)) [
  | inl same ↦
      let e : i ≡ k / 32 = ground arith in
      rw (same, e, load32-store32_self m (word_address bitmap (k / 32)) v)
        (let f : u32 v ≡ v = omega arith in rw f)
  | inr other ↦ rw (
    other,
    load32-store32_ne m (word_address bitmap i) v (word_address bitmap (k / 32)) (ground arith),
  )
]

-- A word that differs from the stored one in the place of bit `i` alone.
bit_at_update :
    (m : Memory) (bitmap i v b k : ℕ)
    → v < 2 ^ 32
    → ((j : ℕ)
        → j < 32
        → test_bit v j
          ≡ (if i % 32 == j then b else test_bit (load32 m (word_address bitmap (i / 32))) j))
    → bit_at (store32 m (word_address bitmap (i / 32)) v) bitmap k
      ≡ (if i == k then b else bit_at m bitmap k)
bit_at_update m bitmap i v b k p h = elim (Bool-cases (i / 32 == k / 32)) [
  | inl same ↦
      let e : k / 32 ≡ i / 32 = ground arith in
      let old : bit_at m bitmap k ≡ test_bit (load32 m (word_address bitmap (i / 32))) (k % 32) =
        unfold bit_at in ap (λ (t : ℕ). test_bit (load32 m (word_address bitmap t)) (k % 32)) e in
      ground (arith, bit_at-store32 m bitmap (i / 32) v k p, h (k % 32) (omega arith))
  | inr other ↦ ground (arith, bit_at-store32 m bitmap (i / 32) v k p)
]

-- `BitmapSet` sets its bit and leaves every other bit of the bitmap as it was.
pub bit_at-set :
    (m : Memory) (bitmap i k : ℕ)
    → bit_at (bitmap_set m bitmap i) bitmap k ≡ (if i == k then 1 else bit_at m bitmap k)
unfolding bitmap_set
bit_at-set m bitmap i k =
    bit_at_update m bitmap i _ 1 k
      (bit_or-lt 32 word flag (load32-lt m _) (pow-lt (i % 32) (omega arith)))
      λ j l. ground (arith, test_bit-or word flag j, test_bit-pow (i % 32) j, test_bit-le word j)
  where
    word : ℕ
    word = load32 m (word_address bitmap (i / 32))

    flag : ℕ
    flag = 2 ^ (i % 32)

-- `BitmapUnset` clears its bit and leaves every other bit of the bitmap as it was.
pub bit_at-unset :
    (m : Memory) (bitmap i k : ℕ)
    → bit_at (bitmap_unset m bitmap i) bitmap k ≡ (if i == k then 0 else bit_at m bitmap k)
unfolding bitmap_unset
bit_at-unset m bitmap i k =
    bit_at_update m bitmap i _ 0 k (bit_and-lt 32 word (not32 flag) (load32-lt m _)) λ j l. ground (
      arith,
      test_bit-and word (not32 flag) j,
      test_bit-not 32 flag j (pow-lt (i % 32) (omega arith)) l,
      test_bit-pow (i % 32) j,
      test_bit-le word j,
    )
  where
    word : ℕ
    word = load32 m (word_address bitmap (i / 32))

    flag : ℕ
    flag = 2 ^ (i % 32)

-- `BitmapTest` is not zero exactly when its bit is set.
pub bitmap_test-ne_zero_iff :
    (m : Memory) (bitmap i : ℕ) → (bitmap_test m bitmap i ≢ 0) ↔ (bit_at m bitmap i ≡ 1)
unfolding bitmap_test bit_at
bitmap_test-ne_zero_iff m bitmap i =
    ground (arith, bit_and-pow_zero_iff word (i % 32), test_bit-le word (i % 32))
  where
    word : ℕ
    word = load32 m (word_address bitmap (i / 32))

-- Setting and clearing write to the word of their bit alone.
pub bitmap_set_outside :
    (m : Memory) (bitmap i a : ℕ)
    → (a < bitmap + 4 * (i / 32)) ⊎ (bitmap + 4 * (i / 32) + 4 ≤ a)
    → bitmap_set m bitmap i a ≡ m a
unfolding bitmap_set
bitmap_set_outside m bitmap i a h = load8-store32_ne m _ _ a h

pub bitmap_unset_outside :
    (m : Memory) (bitmap i a : ℕ)
    → (a < bitmap + 4 * (i / 32)) ⊎ (bitmap + 4 * (i / 32) + 4 ≤ a)
    → bitmap_unset m bitmap i a ≡ m a
unfolding bitmap_unset
bitmap_unset_outside m bitmap i a h = load8-store32_ne m _ _ a h
