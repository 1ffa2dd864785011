-- ===== src/Vmem.antt =====
-- VirtualMemoryMgmt/PhysicalFrameAllocator: the bitmap functions and the allocator.
pub mod Bitmap
pub mod FrameSet
pub mod Allocator
