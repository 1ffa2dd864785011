-- ===== src/Vmem/Allocator/Tests.antt =====
-- The allocator on a memory of four frames, `Init` on a small memory map, and the theorems at them.
use cosmo.Bits.{test_bit}
use cosmo.Libc.Str.{memset}
use cosmo.Memory.{Memory, load32, store32}
use cosmo.Vmem.Allocator.{
  PhysicalFrameAllocator, KernelDescriptor, construct, alloc_frame, free_frame, is_aligned,
  frame_size, kilobytes_to_frames, physical_to_virtual, init_bitmap, init, init_region,
  init_available_regions, deinit_kernel, free_region, free_frames, available_from, init_frames,
}
use cosmo.Vmem.Allocator.Align.{deinit_kernel_bits, deinit_kernel_count}
use cosmo.Vmem.Allocator.Available.{
  covered, entries, IsAvailable, init_available_regions-IsAvailable,
}
use cosmo.Vmem.Allocator.Client.{Client, take, give, here, next, IsSound, Reach-IsSound}
use cosmo.Vmem.Allocator.Refine.{frames, IsValid, alloc_refines}
use cosmo.Vmem.Allocator.Regions.{taken_frames, used, within, SameTable}
use cosmo.Vmem.Allocator.Simulation.{SetReach, as_set, Reach-SetReach}
use cosmo.Vmem.Allocator.Start.{started, map_start, map_end, init_bits}
use cosmo.Vmem.Bitmap.{bitmap_set, bitmap_unset, bitmap_first_unset}
use cosmo.Vmem.Bitmap.Bit.{bit_at}
use cosmo.Vmem.FrameSet
use cosmo.Vmem.FrameSet.{count}
use cosmo.Prelude.{
  ℕ, ◌+◌, ◌-◌, ◌/◌, ◌==◌, ◌≡◌, ◌≢◌, refl, arith, true, false, [], ◌∷◌, if◌then◌else◌, ◌||◌,
}

-- Frame 0 and frame 2 of four are used; frame 0 is not counted.
abbrev tiny : PhysicalFrameAllocator
tiny = record {
  mem_size = 16;
  max_frames = 4;
  used_frames = 1;
  pmmap_size = 1;
  pmmap = 64;
  memory = store32 (λ a. 0) 64 5;
}

tiny-IsValid : IsValid 1 tiny
unfolding bit_at load32 store32 count test_bit
tiny-IsValid = record { small = omega arith; zero_used = refl; counted = refl }

alloc_runs :
    ((alloc_frame tiny).0 ≡ 4096)
    × ((alloc_frame (alloc_frame tiny).1).0 ≡ 12288)
    × ((alloc_frame (alloc_frame (alloc_frame tiny).1).1).0 ≡ 0)
unfolding alloc_frame bitmap_first_unset bitmap_set load32 store32
alloc_runs = (refl, refl, refl)

alloc_refines_example :
    let (frame, b) = alloc_frame tiny in (frame, frames b) ≡ FrameSet.alloc 4 (frames tiny)
alloc_refines_example = alloc_refines tiny-IsValid

abbrev client : Client
client = record { allocator = tiny; held = [] }

client-IsSound : IsSound 1 1 client
client-IsSound = record { valid = tiny-IsValid; frames_held = tt; distinct = tt; counted = refl }

-- The client after it took a frame.
abbrev holder : Client
holder = record { allocator = (alloc_frame tiny).1; held = (alloc_frame tiny).0 ∷ [] }

taken_ne_zero : (alloc_frame tiny).0 ≢ 0
unfolding alloc_frame bitmap_first_unset load32 store32
taken_ne_zero = omega arith

Reach-IsSound_example :
    IsSound 1 1
      (record { allocator = free_frame (alloc_frame tiny).1 (alloc_frame tiny).0; held = [] })
unfolding alloc_frame bitmap_first_unset load32 store32
Reach-IsSound_example =
    Reach-IsSound client-IsSound
      (next (next here (take client taken_ne_zero)) (give holder (alloc_frame tiny).0 refl))

is_aligned_runs : (is_aligned 4096 frame_size ≡ false) × (is_aligned 100 frame_size ≡ true)
unfolding is_aligned
is_aligned_runs = (refl, refl)

-- One available region of 16 frames from address 0 on, described at 1000 and 2000.
abbrev boot_memory : Memory
boot_memory =
    store32 (store32 (store32 (store32 (store32 (λ a. 0) 1044 24) 1048 2000) 2004 0) 2012 65536)
      2020 1

abbrev descriptor : KernelDescriptor
descriptor = record {
  kernel_physical_start = 4096;
  kernel_physical_end = 8192;
  kernel_virtual_start = 4096;
  kernel_virtual_end = 8192;
  kernel_virtual_base = 0;
}

init_runs :
    let a = init (construct boot_memory) 1000 8192 64 descriptor in
    ((alloc_frame a).0 ≡ 12288) × (a.max_frames ≡ 16) × (a.used_frames ≡ 2)
unfolding init construct alloc_frame bitmap_first_unset bitmap_set bitmap_unset load32 store32
    memset deinit_kernel free_region free_frames is_aligned init_available_regions available_from
    physical_to_virtual init_bitmap kilobytes_to_frames init_region init_frames
init_runs = (refl, refl, refl)

init_bits_example :
    let a = started (construct boot_memory) 8192 64 descriptor in
    let first = map_start (construct boot_memory) 8192 64 descriptor 1000 in
    let last = map_end (construct boot_memory) 8192 64 descriptor 1000 in
    used (init (construct boot_memory) 1000 8192 64 descriptor) 3 ≡ (
      if within
          (descriptor.kernel_physical_start / frame_size)
          (taken_frames (descriptor.kernel_physical_end - descriptor.kernel_physical_start))
          3
        || within (descriptor.kernel_physical_end / frame_size) (a.pmmap_size / frame_size + 1) 3
      then 1
      else if 3 == 0
      then 1
      else if covered a.memory first (entries first last) 3
      then 0
      else 1)
unfolding init construct load32 store32 memset physical_to_virtual init_bitmap kilobytes_to_frames
init_bits_example =
    init_bits (construct boot_memory) 8192 64 descriptor 1000 3 (omega arith) (omega arith)
      (omega arith) (omega arith) (omega arith) (omega arith)

init_available_regions-IsAvailable_example :
    IsAvailable 2000 1
      (record tiny { pmmap = 4096; memory = store32 boot_memory 4096 5 })
      (init_available_regions
        (record tiny { pmmap = 4096; memory = store32 boot_memory 4096 5 })
        2000
        2024)
unfolding bit_at load32 store32 test_bit
init_available_regions-IsAvailable_example =
    init_available_regions-IsAvailable
      (record tiny { pmmap = 4096; memory = store32 boot_memory 4096 5 }) 2000 2024 (omega arith)
      refl

deinit_kernel_bits_example :
    let b = deinit_kernel tiny 4096 8192 in
    SameTable tiny b
    × ((k : ℕ) → used b k ≡ (if within 1 1 k || within 2 1 k then 1 else used tiny k))
deinit_kernel_bits_example =
    deinit_kernel_bits tiny 4096 8192 (omega arith) (omega arith) (omega arith)

deinit_kernel_count_example : (deinit_kernel tiny 4096 8192).used_frames ≡ 3
deinit_kernel_count_example =
    deinit_kernel_count tiny 4096 8192 (omega arith) (omega arith) (omega arith) (omega arith)

-- The client that took a frame and gave it back.
Reach-SetReach_example :
    let after : Client = record {
      allocator = free_frame (alloc_frame tiny).1 (alloc_frame tiny).0;
      held = [];
    } in
    SetReach 4 (as_set client) (as_set after) × (after.allocator.max_frames ≡ 4)
unfolding alloc_frame bitmap_first_unset load32 store32
Reach-SetReach_example =
    Reach-SetReach client-IsSound
      (next (next here (take client taken_ne_zero)) (give holder (alloc_frame tiny).0 refl))
