-- ===== src/Bits.antt =====
-- Bits of a number, and what `|`, `&`, `1 << j` and `~` do to them, at every width.
mod Digit
mod Laws
mod Fields
unfoldable pub use Laws.*
pub use Fields.*
