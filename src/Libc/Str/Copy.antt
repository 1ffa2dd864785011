-- ===== src/Libc/Str/Copy.antt =====
-- `memcpy` and `memmove` against one pointwise description.
use cosmo.Libc.Str.{memcpy, memmove, copy_up, copy_down}
use cosmo.Memory.{Memory, load8, store8}
use cosmo.Prelude.{ℕ, zero, suc, ◌+◌, ◌-◌, ◌≤◌, ◌≡◌, ◌⊎◌, arith, ltb, leb, ◌&&◌, if◌then◌else◌}

-- Memory `m` with `size` bytes from `src` on copied to `dst`, all at once.
abbrev pub copied : Memory → ℕ → ℕ → ℕ → Memory
copied m dst src size b = if leb dst b && ltb b (dst + size) then load8 m (src + (b - dst)) else m b

-- Going up reads no byte that it has written, if the target starts below the source or past it.
copy_up_lem :
    (m : Memory) (dst src i left b : ℕ)
    → (dst ≤ src) ⊎ (src + (i + left) ≤ dst)
    → copy_up m dst src i left b
      ≡ (if leb (dst + i) b && ltb b (dst + (i + left)) then load8 m (src + (b - dst)) else m b)
unfolding copy_up
copy_up_lem m dst src i zero b h = ground arith
copy_up_lem m dst src i (suc left) b h =
    ground (arith, copy_up_lem (store8 m (dst + i) (load8 m (src + i))) dst src (i + 1) left b)

copy_down_lem :
    (m : Memory) (dst src i b : ℕ) → src ≤ dst → copy_down m dst src i b ≡ copied m dst src i b
unfolding copy_down
copy_down_lem m dst src zero b h = ground arith
copy_down_lem m dst src (suc i) b h =
    ground (arith, copy_down_lem (store8 m (dst + i) (load8 m (src + i))) dst src i b)

-- `memmove` copies as if all at once, however the two ranges overlap.
pub memmove-copied :
    (m : Memory) (dst src size b : ℕ) → memmove m dst src size b ≡ copied m dst src size b
unfolding memmove
memmove-copied m dst src size b =
    ground (arith, copy_up_lem m dst src 0 size b, copy_down_lem m dst src size b)

-- `memcpy` copies as if all at once, if the target starts at or below the source, or past its end.
pub memcpy-copied :
    (m : Memory) (dst src size b : ℕ)
    → (dst ≤ src) ⊎ (src + size ≤ dst)
    → memcpy m dst src size b ≡ copied m dst src size b
unfolding memcpy
memcpy-copied m dst src size b h = ground (arith, copy_up_lem m dst src 0 size b)
