-- ===== src/Boot.antt =====
-- What the boot loader hands to the kernel, and the kernel's start.
pub mod Multiboot
