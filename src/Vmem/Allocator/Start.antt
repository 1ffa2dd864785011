-- ===== src/Vmem/Allocator/Start.antt =====
-- The bitmap that `Init` leaves behind.
use cosmo.Boot.Multiboot.{info_mmap_length, info_mmap_addr}
use cosmo.Vmem.Allocator.{
  PhysicalFrameAllocator, KernelDescriptor, init_bitmap, init_available_regions, init, frame_size,
  kilobytes_to_frames, physical_to_virtual,
}
use cosmo.Vmem.Allocator.Align.{deinit_kernel_bits}
use cosmo.Vmem.Allocator.Available.{covered, entries, init_available_regions-IsAvailable}
use cosmo.Vmem.Allocator.Regions.{used, within, taken_frames}
use cosmo.Vmem.Bitmap.Bit.{bit_at}
use cosmo.Vmem.Bitmap.Fill.{bit_at-memset}
use cosmo.Prelude.{
  ℕ, ◌+◌, ◌-◌, ◌*◌, ◌/◌, ◌^◌, ◌≤◌, ◌<◌, ◌==◌, ◌≡◌, ◌≢◌, ◌∙◌, refl, arith, ◌||◌, ltb, if◌then◌else◌,
  u32, false, true,
}

-- The number of `uint32_t` in a bitmap of `max` frames.
abbrev pub dwords : ℕ → ℕ
dwords max = (max + 31) / 32

pub kilobytes_to_frames-le : (n : ℕ) → kilobytes_to_frames n ≤ 2 ^ 20
unfolding kilobytes_to_frames
kilobytes_to_frames-le n = omega arith

module _ (a : PhysicalFrameAllocator) (pmmap_addr pmmap_size : ℕ) (desc : KernelDescriptor) where
  abbrev pub started : PhysicalFrameAllocator
  started = init_bitmap a pmmap_addr pmmap_size desc

  init_bitmap_table :
      (started.max_frames ≡ kilobytes_to_frames pmmap_size)
      × (started.used_frames ≡ kilobytes_to_frames pmmap_size)
      × (started.pmmap_size ≡ dwords (kilobytes_to_frames pmmap_size))
      × (started.pmmap ≡ physical_to_virtual pmmap_addr desc.kernel_virtual_start)
  unfolding init_bitmap
  init_bitmap_table = (refl, refl, ground arith, refl)

  -- `memset` is given the number of `uint32_t`, and fills that many bytes: a quarter of the
  -- bitmap.
  init_bitmap_bits :
      (k : ℕ)
      → used started k
        ≡ (if ltb k (8 * started.pmmap_size) then 1 else bit_at a.memory started.pmmap k)
  unfolding init_bitmap
  init_bitmap_bits k = bit_at-memset a.memory _ _ k

  abbrev pub map_start : ℕ → ℕ
  map_start mb_info =
      physical_to_virtual (info_mmap_addr started.memory mb_info) desc.kernel_virtual_base

  abbrev pub map_end : ℕ → ℕ
  map_end mb_info =
      physical_to_virtual
        (u32 (info_mmap_addr started.memory mb_info + info_mmap_length started.memory mb_info))
        desc.kernel_virtual_base

  -- What the bitmap says of frame `k` after `Init`: used if it is the kernel's, or one of the
  -- frames kept for the bitmap, or frame 0; else free if an available region covers it; else used
  -- if it is one of the first `8 * pmmap_size_` frames; else as the memory happened to say.
  abbrev pub initial_bit : ℕ → ℕ → ℕ
  initial_bit mb_info k =
      if within (desc.kernel_physical_start / frame_size)
          (taken_frames (desc.kernel_physical_end - desc.kernel_physical_start)) k
        || within (desc.kernel_physical_end / frame_size) (started.pmmap_size / frame_size + 1) k
      then 1
      else if k == 0
      then 1
      else if covered started.memory (map_start mb_info)
          (entries (map_start mb_info) (map_end mb_info)) k
      then 0
      else if ltb k (8 * started.pmmap_size)
      then 1
      else bit_at a.memory started.pmmap k

  pub init_lem :
      (mb_info : ℕ)
      → mb_info ≢ 0
      → 0 < kilobytes_to_frames pmmap_size
      → map_start mb_info + 24 * entries (map_start mb_info) (map_end mb_info) ≤ started.pmmap
      → desc.kernel_physical_start ≤ desc.kernel_physical_end
      → desc.kernel_physical_end < 2 ^ 32
      → ((k : ℕ) → used (init a mb_info pmmap_addr pmmap_size desc) k ≡ initial_bit mb_info k)
        × ((init a mb_info pmmap_addr pmmap_size desc).max_frames ≡ kilobytes_to_frames pmmap_size)
  unfolding init
  init_lem mb_info given some_frames below order fits =
      let table = init_bitmap_table in
      let first : used started 0 ≡ 1 = ground (arith, init_bitmap_bits 0, table.2) in
      let opened =
        init_available_regions-IsAvailable started (map_start mb_info) (map_end mb_info) below
          first in
      let size = opened.table.pmmap_size in
      let reserved =
        deinit_kernel_bits (init_available_regions started (map_start mb_info) (map_end mb_info))
          desc.kernel_physical_start desc.kernel_physical_end order fits
          (omega (arith, size, table.2, kilobytes_to_frames-le pmmap_size)) in
      let not_null : (mb_info == 0) ≡ false = ground arith in
      rw not_null (
        λ k. ground (arith, reserved.1 k, size, opened.bits k, init_bitmap_bits k),
        reserved.0.max_frames ∙ opened.table.max_frames ∙ table.0,
      )

  -- With an information structure that is not null, one frame of memory at least, the memory map
  -- below the bitmap, and a kernel that ends below 2^32 and not before its start: of the frames
  -- whose bits `InitBitmap` sets, the first `8 * pmmap_size_`, `Init` leaves those as used that are
  -- the kernel's or kept for the bitmap, and frame 0. Of the others it leaves as free those that an
  -- available region of the memory map covers, and the rest as used.
  pub init_bits :
      (mb_info k : ℕ)
      → mb_info ≢ 0
      → 0 < kilobytes_to_frames pmmap_size
      → map_start mb_info + 24 * entries (map_start mb_info) (map_end mb_info) ≤ started.pmmap
      → desc.kernel_physical_start ≤ desc.kernel_physical_end
      → desc.kernel_physical_end < 2 ^ 32
      → k < 8 * started.pmmap_size
      → used (init a mb_info pmmap_addr pmmap_size desc) k ≡ (
          if within
              (desc.kernel_physical_start / frame_size)
              (taken_frames (desc.kernel_physical_end - desc.kernel_physical_start))
              k
            || within
                (desc.kernel_physical_end / frame_size)
                (started.pmmap_size / frame_size + 1)
                k
          then 1
          else if k == 0
          then 1
          else if covered started.memory
              (map_start mb_info)
              (entries (map_start mb_info) (map_end mb_info))
              k
          then 0
          else 1)
  init_bits mb_info k given some_frames below order fits set =
      let low : ltb k (8 * started.pmmap_size) ≡ true = ground arith in
      (init_lem mb_info given some_frames below order fits).0 k ∙ rw low refl
