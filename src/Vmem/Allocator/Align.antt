-- ===== src/Vmem/Allocator/Align.antt =====
-- `IsAligned`, `Align` and what `DeinitKernel` reserves with them.
use cosmo.Bits.{bit_and_above, bit_and_low}
use cosmo.Vmem.Allocator.{
  PhysicalFrameAllocator, is_aligned, align, free_region, deinit_kernel, frame_size,
}
use cosmo.Vmem.Allocator.Regions.{
  used, within, SameTable, SameTable-trans, taken_frames, free_region-Marked, free_region_count,
}
use cosmo.Prelude.{
  ℕ, ◌+◌, ◌-◌, ◌*◌, ◌/◌, ◌%◌, ◌^◌, ◌≤◌, ◌<◌, ◌≡◌, ◌↔◌, arith, bit_and, not32, sub32, if◌then◌else◌,
  true, ◌∙◌, ap, ◌||◌,
}

-- `addr & ~(kFrameSize - 1)` drops the offset in the frame.
bit_and_frame : (a : ℕ) → a < 2 ^ 32 → bit_and a (not32 (sub32 frame_size 1)) ≡ a / 4096 * 4096
bit_and_frame a h =
    let parts : a ≡ a / 4096 * 2 ^ 12 + a % 4096 = omega arith in
    let above = bit_and_above 12 (a / 4096) (a % 4096) (2 ^ 20 - 1) (omega arith) in
    let low = bit_and_low 20 (a / 4096) in
    omega (arith, ap (λ t. bit_and t (not32 (sub32 frame_size 1))) parts, above, low)

-- `IsAligned` at the frame size accepts exactly those addresses of 32 bits that lie in frame 0: the
-- complement in it turns the test round.
pub is_aligned_iff : (a : ℕ) → a < 2 ^ 32 → (is_aligned a frame_size ≡ true) ↔ (a < frame_size)
unfolding is_aligned
is_aligned_iff a h = ground (arith, bit_and_frame a h)

-- `Align` at the frame size returns the first frame boundary above the address.
pub align_lem :
    (a : ℕ)
    → a < 2 ^ 32 - frame_size
    → (align a frame_size % frame_size ≡ 0)
      × (a < align a frame_size)
      × (align a frame_size ≤ a + frame_size)
unfolding align
align_lem a h = omega (arith, bit_and_frame a (omega arith))

-- What `DeinitKernel` hands to `FreeRegion` as the size of the bitmap.
abbrev pub aligned_size : ℕ → ℕ
aligned_size n = if is_aligned n frame_size then n else align n frame_size

-- `IsAligned` and `Align` together reserve one frame more than the whole frames of the size.
taken_frames-aligned_size :
    (n : ℕ)
    → n < 2 ^ 32 - frame_size
    → (taken_frames (aligned_size n) ≡ n / frame_size + 1) × (aligned_size n < 2 ^ 32)
unfolding is_aligned align
taken_frames-aligned_size n h = ground (arith, bit_and_frame n (omega arith))

-- With a kernel that ends below 2^32 and not before its start, and a bitmap of fewer than 2^20
-- words, `DeinitKernel` marks as used the frames from the kernel's start on, as many as its size
-- holds but one at least, and from the kernel's end on one frame more than `pmmap_size_ /
-- kFrameSize`. It changes no other frame.
pub deinit_kernel_bits :
    (a : PhysicalFrameAllocator) (kernel_start kernel_end : ℕ)
    → kernel_start ≤ kernel_end
    → kernel_end < 2 ^ 32
    → a.pmmap_size < 2 ^ 20
    → let b = deinit_kernel a kernel_start kernel_end in
      SameTable a b
      × ((k : ℕ)
          → used b k ≡ (
              if within (kernel_start / frame_size) (taken_frames (kernel_end - kernel_start)) k
                || within (kernel_end / frame_size) (a.pmmap_size / frame_size + 1) k
              then 1
              else used a k))
unfolding deinit_kernel
deinit_kernel_bits a ks ke h₁ h₂ h₃ =
    let size : sub32 ke ks ≡ ke - ks = omega arith in
    let map_size = taken_frames-aligned_size a.pmmap_size (omega arith) in
    let kernel = free_region-Marked a ks (ke - ks) (omega arith) (omega arith) in
    let table =
      free_region-Marked (free_region a ks (ke - ks)) ke (aligned_size a.pmmap_size) h₂
        map_size.1 in
    rw size (
      SameTable-trans kernel.table table.table,
      λ k. ground (arith, kernel.bits k, table.bits k, map_size.0),
    )

-- `DeinitKernel` counts each of those frames once more as used, whatever its bit was before.
pub deinit_kernel_count :
    (a : PhysicalFrameAllocator) (kernel_start kernel_end : ℕ)
    → kernel_start ≤ kernel_end
    → kernel_end < 2 ^ 32
    → a.pmmap_size < 2 ^ 20
    → a.used_frames ≤ 2 ^ 20
    → (deinit_kernel a kernel_start kernel_end).used_frames
      ≡ a.used_frames + taken_frames (kernel_end - kernel_start) + (a.pmmap_size / frame_size + 1)
unfolding deinit_kernel
deinit_kernel_count a ks ke h₁ h₂ h₃ h₄ =
    let size : sub32 ke ks ≡ ke - ks = omega arith in
    let map_size = taken_frames-aligned_size a.pmmap_size (omega arith) in
    let kernel = free_region_count a ks (ke - ks) (ground arith) in
    rw size (
      free_region_count (free_region a ks (ke - ks)) ke (aligned_size a.pmmap_size)
        (ground (arith, kernel, map_size.0))
      ∙ omega (arith, kernel, map_size.0))
