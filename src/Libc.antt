-- ===== src/Libc.antt =====
-- The string functions and the output of the C library.
pub mod Str
pub mod Stdio
