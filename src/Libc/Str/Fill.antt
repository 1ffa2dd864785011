-- ===== src/Libc/Str/Fill.antt =====
-- `memset` against a pointwise description.
use cosmo.Libc.Str.{memset, memset_from}
use cosmo.Memory.{Memory, store8}
use cosmo.Prelude.{ℕ, zero, suc, ◌+◌, ◌≡◌, arith, ltb, leb, ◌&&◌, if◌then◌else◌, u8}

memset_from_lem :
    (m : Memory) (buf value i left b : ℕ)
    → memset_from m buf value i left b
      ≡ (if leb (buf + i) b && ltb b (buf + i + left) then u8 value else m b)
unfolding memset_from
memset_from_lem m buf value i zero b = ground arith
memset_from_lem m buf value i (suc left) b =
    ground (arith, memset_from_lem (store8 m (buf + i) (u8 value)) buf value (i + 1) left b)

-- `memset` writes the low byte of the value to the `size` bytes from `buf` on, and nothing else.
pub memset_lem :
    (m : Memory) (buf value size b : ℕ)
    → memset m buf value size b ≡ (if leb buf b && ltb b (buf + size) then u8 value else m b)
unfolding memset
memset_lem m buf value size b = ground (arith, memset_from_lem m buf value 0 size b)
