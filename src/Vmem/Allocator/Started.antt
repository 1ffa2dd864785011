-- ===== src/Vmem/Allocator/Started.antt =====
-- A client of the allocator after `Init`.
use cosmo.Vmem.Allocator.{PhysicalFrameAllocator, KernelDescriptor, init, kilobytes_to_frames}
use cosmo.Vmem.Allocator.Available.{entries}
use cosmo.Vmem.Allocator.Client.{Client, Reach}
use cosmo.Vmem.Allocator.Reserved.{IsReserved, Reach-IsReserved}
use cosmo.Vmem.Allocator.Start.{
  started, initial_bit, init_lem, map_start, map_end, kilobytes_to_frames-le,
}
use cosmo.Prelude.{ℕ, ◌+◌, ◌*◌, ◌^◌, ◌≤◌, ◌<◌, ◌≡◌, ◌≢◌, ◌∙◌, arith, []}

module _ (a : PhysicalFrameAllocator) (pmmap_addr pmmap_size : ℕ) (desc : KernelDescriptor) where
  -- The client that asks the allocator first after `Init`.
  abbrev pub newcomer : ℕ → Client
  newcomer mb_info = record { allocator = init a mb_info pmmap_addr pmmap_size desc; held = [] }

  -- With the memory map below the bitmap, and whatever calls a client makes after `Init`: the frames
  -- that `Init` left used, the kernel's among them, stay used. The frames that the client holds are
  -- distinct, not frame 0, below the limit, marked as used now, and were free after `Init`.
  pub init-IsReserved :
      (mb_info : ℕ) {c : Client}
      → mb_info ≢ 0
      → 0 < kilobytes_to_frames pmmap_size
      → map_start a pmmap_addr pmmap_size desc mb_info
          + 24
            * entries
                (map_start a pmmap_addr pmmap_size desc mb_info)
                (map_end a pmmap_addr pmmap_size desc mb_info)
        ≤ (started a pmmap_addr pmmap_size desc).pmmap
      → desc.kernel_physical_start ≤ desc.kernel_physical_end
      → desc.kernel_physical_end < 2 ^ 32
      → Reach (newcomer mb_info) c
      → IsReserved (initial_bit a pmmap_addr pmmap_size desc mb_info) c
  init-IsReserved mb_info given some_frames below order fits r =
      let first =
        init_lem a pmmap_addr pmmap_size desc mb_info given some_frames below order fits in
      let frame_zero : initial_bit a pmmap_addr pmmap_size desc mb_info 0 ≡ 1 = ground arith in
      Reach-IsReserved frame_zero
        (record {
          table = record {
            small = omega (arith, first.1, kilobytes_to_frames-le pmmap_size);
            zero_used = first.0 0 ∙ frame_zero;
          };
          kept = λ k. omega (arith, first.0 k);
          given = tt;
          distinct = tt;
        })
        r
