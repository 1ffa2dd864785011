-- ===== src/Libc/Str/Tests.antt =====
-- The string functions on a memory whose bytes count up to 9 and start again, and the theorems
-- there.
use cosmo.Libc.Str.{memset, memmove, memcmp}
use cosmo.Libc.Str.Fill.{memset_lem}
use cosmo.Libc.Str.Copy.{memmove-copied}
use cosmo.Libc.Str.Compare.{Compares, memcmp-Compares}
use cosmo.Memory.{Memory}
use cosmo.Prelude.{◌%◌, ◌≡◌, refl, pos, negsuc}

abbrev digits : Memory
digits a = a % 10

memset_lem_example : memset digits 4 513 3 5 ≡ 1
memset_lem_example = memset_lem digits 4 513 3 5

-- The target overlaps the source from behind.
memmove-copied_example : memmove digits 7 5 4 8 ≡ 6
memmove-copied_example = memmove-copied digits 7 5 4 8

memcmp_runs :
    (memcmp digits 3 13 6 ≡ pos 0)
    × (memcmp digits 3 4 6 ≡ negsuc 0)
    × (memcmp digits 9 10 1 ≡ pos 1)
unfolding memcmp
memcmp_runs = (refl, refl, refl)

memcmp-Compares_example : Compares digits 3 4 0 6 (memcmp digits 3 4 6)
memcmp-Compares_example = memcmp-Compares digits 3 4 6
