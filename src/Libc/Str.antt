-- ===== src/Libc/Str.antt =====
-- src/libc/string: memset, memcpy, memmove, memcmp and strlen over memory. A function that returns
-- its destination pointer returns the new memory here, since the pointer is the caller's own.
pub mod Fill
pub mod Copy
pub mod Compare
pub mod Length
mod Tests
use cosmo.Memory.{Memory, load8, store8}
use cosmo.Prelude.{
  ℕ, zero, suc, ◌+◌, Option, none, some, ◌==◌, ltb, if◌then◌else◌, u8, ℤ, pos, negsuc,
}

-- The loop of `memset` at index `i`, with `size - i` rounds left.
memset_from : Memory → ℕ → ℕ → ℕ → ℕ → Memory
memset_from m buf value i zero = m
memset_from m buf value i (suc left) =
    memset_from (store8 m (buf + i) (u8 value)) buf value (i + 1) left

unfoldable pub memset : Memory → ℕ → ℕ → ℕ → Memory
unfolding memset_from
memset m buf value size = memset_from m buf value 0 size

-- The upward loop of `memcpy` and `memmove` at index `i`.
copy_up : Memory → ℕ → ℕ → ℕ → ℕ → Memory
copy_up m dst src i zero = m
copy_up m dst src i (suc left) =
    copy_up (store8 m (dst + i) (load8 m (src + i))) dst src (i + 1) left

unfoldable pub memcpy : Memory → ℕ → ℕ → ℕ → Memory
unfolding copy_up
memcpy m dst src size = copy_up m dst src 0 size

-- The downward loop of `memmove`, from index `i` to 1.
copy_down : Memory → ℕ → ℕ → ℕ → Memory
copy_down m dst src zero = m
copy_down m dst src (suc i) = copy_down (store8 m (dst + i) (load8 m (src + i))) dst src i

unfoldable pub memmove : Memory → ℕ → ℕ → ℕ → Memory
unfolding copy_up copy_down
memmove m dst src size = if ltb dst src then copy_up m dst src 0 size else copy_down m dst src size

memcmp_from : Memory → ℕ → ℕ → ℕ → ℕ → ℤ
memcmp_from m a b i zero = pos 0
memcmp_from m a b i (suc left) =
    let rest = memcmp_from m a b (i + 1) left in
    if ltb (load8 m (a + i)) (load8 m (b + i))
    then negsuc 0
    else if ltb (load8 m (b + i)) (load8 m (a + i))
    then pos 1
    else rest

unfoldable pub memcmp : Memory → ℕ → ℕ → ℕ → ℤ
unfolding memcmp_from
memcmp m a b size = memcmp_from m a b 0 size

-- `while (str[len]) len++`, with fuel; `none` means that no end was met.
strlen_from : Memory → ℕ → ℕ → ℕ → Option ℕ
strlen_from m str len zero = none
strlen_from m str len (suc fuel) =
    let rest = strlen_from m str (len + 1) fuel in
    if load8 m (str + len) == 0 then some len else rest

unfoldable pub strlen : ℕ → Memory → ℕ → Option ℕ
unfolding strlen_from
strlen fuel m str = strlen_from m str 0 fuel
