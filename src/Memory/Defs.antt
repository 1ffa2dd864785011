-- ===== src/Memory/Defs.antt =====
-- An address is a number: a pointer that runs past the end of the address space is undefined in
-- C++ and is not modelled. A cell is read as a byte, so every function is a memory.
use cosmo.Prelude.{ℕ, ◌+◌, ◌*◌, ◌/◌, ◌^◌, ◌==◌, if◌then◌else◌, u8}

abbrev pub Memory : Type 0
Memory = ℕ → ℕ

abbrev pub load8 : Memory → ℕ → ℕ
load8 m a = u8 (m a)

abbrev pub store8 : Memory → ℕ → ℕ → Memory
store8 m a v b = if a == b then u8 v else m b

-- The bytes of a `uint32_t`, lowest first.
unfoldable pub load32 : Memory → ℕ → ℕ
load32 m a =
    load8 m a + (load8 m (a + 1) * 2 ^ 8 + (load8 m (a + 2) * 2 ^ 16 + load8 m (a + 3) * 2 ^ 24))

unfoldable pub store32 : Memory → ℕ → ℕ → Memory
store32 m a v =
    store8 (store8 (store8 (store8 m a v) (a + 1) (v / 2 ^ 8)) (a + 2) (v / 2 ^ 16)) (a + 3)
      (v / 2 ^ 24)
