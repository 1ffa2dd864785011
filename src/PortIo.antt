-- ===== src/PortIo.antt =====
-- src/PortIO: the I/O ports. What stands behind the ports is not the kernel's: `Hardware` gives the
-- byte that a port reads, from all that happened on the ports before. A program is a function of
-- that history, newest event first, and adds its own events to it.
use cosmo.Prelude.{ℕ, List, ◌∷◌, u8, u16}

pub data Event : Type 0 where
  wrote : ℕ → ℕ → Event
  got : ℕ → ℕ → Event

abbrev pub History : Type 0
History = List Event

abbrev pub Hardware : Type 0
Hardware = History → ℕ → ℕ

abbrev pub Io : Type 0 → Type 0
Io A = History → A × History

abbrev pub pure : {A : Type 0} → A → Io A
pure a h = (a, h)

infixl 5 ◌>>=◌ ◌>>◌
abbrev pub ◌>>=◌ : {A B : Type 0} → Io A → (A → Io B) → Io B
◌>>=◌ m f h = let (a, h') = m h in f a h'

abbrev pub ◌>>◌ : {B : Type 0} → Io (Unit {0}) → Io B → Io B
m >> k = m >>= λ _. k

-- The port is a `uint16_t` and the byte a `uint8_t`.
abbrev pub outb : ℕ → ℕ → Io (Unit {0})
outb port byte h = (tt, wrote (u16 port) (u8 byte) ∷ h)

abbrev pub inb : Hardware → ℕ → Io ℕ
inb hardware port h = (u8 (hardware h (u16 port)), got (u16 port) (u8 (hardware h (u16 port))) ∷ h)

abbrev pub io_wait : Io (Unit {0})
io_wait = outb 0x80 0
