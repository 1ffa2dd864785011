-- ===== src/Vmem/Bitmap/Tests.antt =====
-- The bitmap functions on a bitmap of two words, and the theorems at it.
use cosmo.Memory.{Memory, load32, store32}
use cosmo.Vmem.Bitmap.{bitmap_set, bitmap_unset, bitmap_test, bitmap_first_unset}
use cosmo.Vmem.Bitmap.Bit.{bit_at, bit_at-set, bit_at-unset, bitmap_test-ne_zero_iff}
use cosmo.Vmem.Bitmap.First.{IsFirstUnset, bitmap_first_unset-IsFirstUnset}
use cosmo.Prelude.{◌≡◌, ◌≢◌, ◌↔◌, refl, some, none, if◌then◌else◌, ◌==◌}

-- A full word, and one with bit 3 clear.
abbrev words : Memory
words = store32 (store32 (λ a. 0) 64 0xffff_ffff) 68 0xffff_fff7

bitmap_runs :
    (bitmap_first_unset words 64 50 ≡ some 35)
    × (bitmap_first_unset words 64 35 ≡ none)
    × (bitmap_first_unset (bitmap_set words 64 35) 64 64 ≡ none)
    × (bitmap_first_unset (bitmap_unset words 64 7) 64 64 ≡ some 7)
    × (bitmap_test words 64 31 ≡ 0x8000_0000)
unfolding bitmap_first_unset bitmap_set bitmap_unset bitmap_test load32 store32
bitmap_runs = (refl, refl, refl, refl, refl)

bitmap_first_unset-IsFirstUnset_example :
    IsFirstUnset (bit_at words 64) 0 50 (bitmap_first_unset words 64 50)
bitmap_first_unset-IsFirstUnset_example = bitmap_first_unset-IsFirstUnset words 64 50

bit_at-set_example :
    bit_at (bitmap_set words 64 35) 64 35 ≡ (if 35 == 35 then 1 else bit_at words 64 35)
bit_at-set_example = bit_at-set words 64 35 35

bit_at-unset_example :
    bit_at (bitmap_unset words 64 7) 64 8 ≡ (if 7 == 8 then 0 else bit_at words 64 8)
bit_at-unset_example = bit_at-unset words 64 7 8

bitmap_test-ne_zero_iff_example : (bitmap_test words 64 31 ≢ 0) ↔ (bit_at words 64 31 ≡ 1)
bitmap_test-ne_zero_iff_example = bitmap_test-ne_zero_iff words 64 31
