-- ===== src/Vmem/Bitmap.antt =====
-- The bitmap functions of src/VirtualMemoryMgmt/PhysicalFrameAllocator/PhysicalFrameAllocator.cc.
-- A bitmap is the address of its first `uint32_t`. A bit index, an `int` in the source, is never
-- negative, and an index that is returned stands for itself in a bitmap of less than 2^31 bits.
pub mod Bit
pub mod First
pub mod Fill
mod Tests
use mathlib.Core.Option
use cosmo.Memory.{Memory, load32, store32}
use cosmo.Prelude.{
  ℕ, zero, suc, ◌+◌, ◌*◌, ◌/◌, ◌%◌, ◌^◌, bit_and, bit_or, not32, Option, none, some, ◌==◌,
  if◌then◌else◌,
}

-- The address of `bitmap[i]`.
abbrev pub word_address : ℕ → ℕ → ℕ
word_address bitmap i = bitmap + 4 * i

unfoldable pub bitmap_set : Memory → ℕ → ℕ → Memory
bitmap_set m bitmap bit =
    let a = word_address bitmap (bit / 32) in store32 m a (bit_or (load32 m a) (2 ^ (bit % 32)))

unfoldable pub bitmap_unset : Memory → ℕ → ℕ → Memory
bitmap_unset m bitmap bit =
    let a = word_address bitmap (bit / 32) in
    store32 m a (bit_and (load32 m a) (not32 (2 ^ (bit % 32))))

-- The result as a bit pattern: it is the `int` that the source returns, read as unsigned.
unfoldable pub bitmap_test : Memory → ℕ → ℕ → ℕ
bitmap_test m bitmap bit = bit_and (load32 m (word_address bitmap (bit / 32))) (2 ^ (bit % 32))

-- The loop over the bits `j` of one word, with `left` rounds left.
scan_bits : ℕ → ℕ → ℕ → Option ℕ
scan_bits word j zero = none
scan_bits word j (suc left) =
    let rest = scan_bits word (j + 1) left in if bit_and word (2 ^ j) == 0 then some j else rest

-- The loop over the whole words from index `i` on, with `left` rounds left.
scan_words : Memory → ℕ → ℕ → ℕ → Option ℕ
scan_words m bitmap i zero = none
scan_words m bitmap i (suc left) =
    let rest = scan_words m bitmap (i + 1) left in
    let word = load32 m (word_address bitmap i) in
    if word == 0xffff_ffff
    then rest
    else elim (scan_bits word 0 32) [ none ↦ rest | some j ↦ some (i * 32 + j) ]

-- `none` is the -1 of the source.
unfoldable pub bitmap_first_unset : Memory → ℕ → ℕ → Option ℕ
unfolding scan_bits scan_words
bitmap_first_unset m bitmap size =
    let rem_bits = size % 32 in
    let tail = scan_bits (load32 m (word_address bitmap (size / 32))) 0 rem_bits in
    elim (scan_words m bitmap 0 (size / 32)) [
      | some r ↦ some r
      | none ↦
          if rem_bits == 0
          then none
          else elim tail [ none ↦ none | some j ↦ some (size / 32 * 32 + j) ]
    ]
