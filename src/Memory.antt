-- ===== src/Memory.antt =====
-- Byte-addressed memory, and the accesses of the C code to it.
mod Defs
mod Laws
unfoldable pub use Defs.*
pub use Laws.*
