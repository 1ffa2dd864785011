-- ===== src/Vmem/Allocator/Place.antt =====
-- Where the bitmap stands.
use cosmo.Vmem.Allocator.{
  PhysicalFrameAllocator, KernelDescriptor, init, init_bitmap, init_frames, init_region,
  free_frames, free_region, available_from, init_available_regions, deinit_kernel,
  physical_to_virtual,
}
use cosmo.Prelude.{
  ℕ, zero, suc, ◌+◌, ◌≡◌, ◌≢◌, ◌==◌, refl, ◌∙◌, arith, ltb, if◌then◌else◌, Bool, true, false, u32,
  sub32,
}

init_frames-pmmap :
    (left : ℕ) (a : PhysicalFrameAllocator) (frame : ℕ) → (init_frames a frame left).pmmap ≡ a.pmmap
unfolding init_frames
init_frames-pmmap zero a frame = refl
init_frames-pmmap (suc left) a frame = init_frames-pmmap left _ (u32 (frame + 1))

free_frames-pmmap :
    (left : ℕ) (a : PhysicalFrameAllocator) (frame : ℕ) → (free_frames a frame left).pmmap ≡ a.pmmap
unfolding free_frames
free_frames-pmmap zero a frame = refl
free_frames-pmmap (suc left) a frame = free_frames-pmmap left _ (u32 (frame + 1))

deinit_kernel-pmmap :
    (a : PhysicalFrameAllocator) (kernel_start kernel_end : ℕ)
    → (deinit_kernel a kernel_start kernel_end).pmmap ≡ a.pmmap
unfolding deinit_kernel free_region
deinit_kernel-pmmap a kernel_start kernel_end =
    free_frames-pmmap _ (free_region a kernel_start (sub32 kernel_end kernel_start)) _
    ∙ free_frames-pmmap _ a _

if-pmmap :
    (b : Bool) (a a₁ a₂ : PhysicalFrameAllocator)
    → a₁.pmmap ≡ a.pmmap
    → a₂.pmmap ≡ a.pmmap
    → (if b then a₁ else a₂).pmmap ≡ a.pmmap
if-pmmap true a a₁ a₂ p q = p
if-pmmap false a a₁ a₂ p q = q

available_from-pmmap :
    (fuel : ℕ) (a : PhysicalFrameAllocator) (mmap mmap_end : ℕ)
    → (available_from fuel a mmap mmap_end).pmmap ≡ a.pmmap
unfolding available_from init_region
available_from-pmmap zero a mmap mmap_end = refl
available_from-pmmap (suc fuel) a mmap mmap_end =
    if-pmmap (ltb mmap mmap_end) a _ a
      (available_from-pmmap fuel _ (mmap + 24) mmap_end
        ∙ if-pmmap _ a _ a (init_frames-pmmap _ a _) refl)
      refl

-- Over any memory map.
pub init-pmmap :
    (a : PhysicalFrameAllocator) (mb_info pmmap_addr pmmap_size : ℕ)
    (kernel_desc : KernelDescriptor)
    → mb_info ≢ 0
    → (init a mb_info pmmap_addr pmmap_size kernel_desc).pmmap
      ≡ physical_to_virtual pmmap_addr kernel_desc.kernel_virtual_start
unfolding init init_bitmap init_available_regions
init-pmmap a mb_info pmmap_addr pmmap_size kernel_desc h =
    let there : (mb_info == 0) ≡ false = ground arith in
    rw there (
      deinit_kernel-pmmap _ kernel_desc.kernel_physical_start kernel_desc.kernel_physical_end
      ∙ available_from-pmmap _ _ _ _)
