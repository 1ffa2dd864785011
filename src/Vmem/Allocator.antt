-- ===== src/Vmem/Allocator.antt =====
-- The class `PhysicalFrameAllocator` of
-- src/VirtualMemoryMgmt/PhysicalFrameAllocator/PhysicalFrameAllocator.cc and its header. The object
-- carries the memory that its bitmap stands in. `size_t` is `uint32_t`, as on the i686 target.
pub mod Regions
pub mod Refine
pub mod Client
pub mod Align
pub mod Available
pub mod Start
pub mod Reserved
pub mod Place
pub mod Started
pub mod Simulation
mod Tests
use cosmo.Boot.Multiboot.{
  info_mmap_length, info_mmap_addr, memory_available, mmap_entry_size, mmap_addr_low, mmap_len_low,
  mmap_type,
}
use cosmo.Libc.Str.{memset}
use cosmo.Memory.{Memory}
use cosmo.Vmem.Bitmap.{bitmap_set, bitmap_unset, bitmap_first_unset}
use cosmo.Prelude.{
  ℕ, zero, suc, ◌+◌, ◌-◌, ◌*◌, ◌/◌, ◌%◌, bit_and, not32, sub32, u32, Bool, none, some, ◌==◌, ltb,
  if◌then◌else◌,
}

-- `struct KernelDescriptor`.
pub record KernelDescriptor : Type 0 where
  pub kernel_physical_start : ℕ
  pub kernel_physical_end : ℕ
  pub kernel_virtual_start : ℕ
  pub kernel_virtual_end : ℕ
  pub kernel_virtual_base : ℕ

pub record PhysicalFrameAllocator : Type 0 where
  pub mem_size : ℕ
  pub max_frames : ℕ
  pub used_frames : ℕ
  pub pmmap_size : ℕ
  pub pmmap : ℕ
  pub memory : Memory

-- The constructor, over the memory at boot.
pub construct : Memory → PhysicalFrameAllocator
construct m = record {
  mem_size = 0;
  max_frames = 0;
  used_frames = 0;
  pmmap_size = 0;
  pmmap = 0;
  memory = m;
}

abbrev pub get_max_frames : PhysicalFrameAllocator → ℕ
get_max_frames a = a.max_frames

abbrev pub get_used_frames : PhysicalFrameAllocator → ℕ
get_used_frames a = a.used_frames

-- `kFrameSize` and `kFramesPerDword`.
abbrev pub frame_size : ℕ
frame_size = 4096

abbrev pub frames_per_dword : ℕ
frames_per_dword = 32

unfoldable pub kilobytes_to_frames : ℕ → ℕ
kilobytes_to_frames mem_size_kb = u32 (mem_size_kb * 1024) / frame_size

unfoldable pub is_aligned : ℕ → ℕ → Bool
is_aligned addr alignment = bit_and addr (not32 (sub32 alignment 1)) == 0

pub align : ℕ → ℕ → ℕ
align addr alignment = u32 (bit_and addr (not32 (sub32 alignment 1)) + alignment)

unfoldable pub physical_to_virtual : ℕ → ℕ → ℕ
physical_to_virtual physical_address virtual_base_address =
    u32 (physical_address + virtual_base_address)

-- The loop of `InitRegion` at frame `frame`, with the rounds left.
unfoldable pub init_frames : PhysicalFrameAllocator → ℕ → ℕ → PhysicalFrameAllocator
init_frames a frame zero = a
init_frames a frame (suc left) =
    init_frames
      (record a {
        memory = bitmap_unset a.memory a.pmmap frame;
        used_frames = sub32 a.used_frames 1;
      })
      (u32 (frame + 1)) left

unfoldable pub init_region : PhysicalFrameAllocator → ℕ → ℕ → PhysicalFrameAllocator
init_region a base size =
    let a' = init_frames a (base / frame_size) (size / frame_size) in
    record a' { memory = bitmap_set a'.memory a'.pmmap 0 }

-- The loop of `FreeRegion`.
unfoldable pub free_frames : PhysicalFrameAllocator → ℕ → ℕ → PhysicalFrameAllocator
free_frames a frame zero = a
free_frames a frame (suc left) =
    free_frames
      (record a {
        memory = bitmap_set a.memory a.pmmap frame;
        used_frames = u32 (a.used_frames + 1);
      })
      (u32 (frame + 1)) left

unfoldable pub free_region : PhysicalFrameAllocator → ℕ → ℕ → PhysicalFrameAllocator
free_region a base size =
    free_frames a (base / frame_size) (if ltb size frame_size then 1 else size / frame_size)

-- The loop of `InitAvailableRegions`, with fuel.
unfoldable pub available_from : ℕ → PhysicalFrameAllocator → ℕ → ℕ → PhysicalFrameAllocator
available_from zero a mmap mmap_end = a
available_from (suc fuel) a mmap mmap_end =
    let a' =
      if mmap_type a.memory mmap == memory_available
      then init_region a (mmap_addr_low a.memory mmap) (mmap_len_low a.memory mmap)
      else a in
    let rest = available_from fuel a' (mmap + mmap_entry_size) mmap_end in
    if ltb mmap mmap_end then rest else a

-- The fuel is more than the entries that start below the end.
unfoldable pub init_available_regions : PhysicalFrameAllocator → ℕ → ℕ → PhysicalFrameAllocator
init_available_regions a mmap_addr mmap_end_addr =
    available_from ((mmap_end_addr - mmap_addr) / mmap_entry_size + 2) a mmap_addr mmap_end_addr

unfoldable pub deinit_kernel : PhysicalFrameAllocator → ℕ → ℕ → PhysicalFrameAllocator
deinit_kernel a kernel_start kernel_end =
    let pmmap_size_aligned =
      if is_aligned a.pmmap_size frame_size then a.pmmap_size else align a.pmmap_size frame_size in
    free_region (free_region a kernel_start (sub32 kernel_end kernel_start)) kernel_end
      pmmap_size_aligned

-- `Init` up to the filled bitmap.
unfoldable pub init_bitmap :
    PhysicalFrameAllocator → ℕ → ℕ → KernelDescriptor → PhysicalFrameAllocator
init_bitmap a pmmap_addr pmmap_size kernel_desc =
    let max = kilobytes_to_frames pmmap_size in
    let pmmap = physical_to_virtual pmmap_addr kernel_desc.kernel_virtual_start in
    let dwords =
      if max % frames_per_dword == 0 then max / frames_per_dword else max / frames_per_dword + 1 in
    record {
      mem_size = pmmap_size;
      max_frames = max;
      used_frames = max;
      pmmap_size = dwords;
      pmmap = pmmap;
      memory = memset a.memory pmmap 0xFF dwords;
    }

-- `mb_info` is the address of the information structure, 0 if it is null.
unfoldable pub init : PhysicalFrameAllocator → ℕ → ℕ → ℕ → KernelDescriptor → PhysicalFrameAllocator
init a mb_info pmmap_addr pmmap_size kernel_desc =
    let base = kernel_desc.kernel_virtual_base in
    let a₁ = init_bitmap a pmmap_addr pmmap_size kernel_desc in
    let m = a₁.memory in
    let mmap = physical_to_virtual (info_mmap_addr m mb_info) base in
    let mmap_end =
      physical_to_virtual (u32 (info_mmap_addr m mb_info + info_mmap_length m mb_info)) base in
    if mb_info == 0
    then a
    else deinit_kernel (init_available_regions a₁ mmap mmap_end) kernel_desc.kernel_physical_start
        kernel_desc.kernel_physical_end

-- The address of the frame, 0 for `nullptr`.
unfoldable pub alloc_frame : PhysicalFrameAllocator → ℕ × PhysicalFrameAllocator
alloc_frame a =
    if sub32 a.used_frames a.max_frames == 0
    then (0, a)
    else elim (bitmap_first_unset a.memory a.pmmap a.max_frames) [
      | none ↦ (0, a)
      | some index ↦ (
        u32 (frame_size * index),
        record a {
          memory = bitmap_set a.memory a.pmmap index;
          used_frames = u32 (a.used_frames + 1);
        },
      )
    ]

pub free_frame : PhysicalFrameAllocator → ℕ → PhysicalFrameAllocator
free_frame a frame = if frame == 0 then a else record a {
  memory = bitmap_unset a.memory a.pmmap (frame / frame_size);
  used_frames = sub32 a.used_frames 1;
}
