-- ===== src/Memory/Laws.antt =====
-- What a load reads after a store.
use cosmo.Memory.Defs.{Memory, load8, load32, store32}
use cosmo.Prelude.{ℕ, ◌+◌, ◌^◌, ◌≤◌, ◌<◌, ◌≡◌, ◌⊎◌, arith, u32}

pub load32-lt : (m : Memory) (a : ℕ) → load32 m a < 2 ^ 32
unfolding load32
load32-lt m a = omega arith

pub load32-store32_self : (m : Memory) (a v : ℕ) → load32 (store32 m a v) a ≡ u32 v
unfolding load32 store32
load32-store32_self m a v = ground arith

pub load8-store32_ne : (m : Memory) (a v b : ℕ) → (b < a) ⊎ (a + 4 ≤ b) → store32 m a v b ≡ m b
unfolding store32
load8-store32_ne m a v b h = ground arith

pub load32-store32_ne :
    (m : Memory) (a v b : ℕ) → (b + 4 ≤ a) ⊎ (a + 4 ≤ b) → load32 (store32 m a v) b ≡ load32 m b
unfolding load32
load32-store32_ne m a v b h = ground (
  arith,
  load8-store32_ne m a v b,
  load8-store32_ne m a v (b + 1),
  load8-store32_ne m a v (b + 2),
  load8-store32_ne m a v (b + 3),
)

-- A load sees only its four bytes.
pub load32_ext :
    (m n : Memory) (a : ℕ)
    → ((k : ℕ) → k < 4 → load8 m (a + k) ≡ load8 n (a + k))
    → load32 m a ≡ load32 n a
unfolding load32
load32_ext m n a h = ground (arith, h 0, h 1, h 2, h 3)
