-- ===== src/Vmem/Allocator/Regions.antt =====
-- `InitRegion`, `FreeRegion` and `DeinitKernel` on the bits of the bitmap and on the count.
use cosmo.Vmem.Allocator.{
  PhysicalFrameAllocator, init_frames, init_region, free_frames, free_region, frame_size,
}
use cosmo.Vmem.Bitmap.{bitmap_set, bitmap_unset}
use cosmo.Vmem.Bitmap.Bit.{bit_at, bit_at-set, bit_at-unset}
use cosmo.Prelude.{
  ℕ, zero, suc, ◌+◌, ◌-◌, ◌/◌, ◌^◌, ◌≤◌, ◌<◌, ◌≡◌, refl, arith, ◌==◌, ltb, leb, ◌&&◌, if◌then◌else◌,
  Bool, sub32, u32, ◌∙◌,
}

-- Whether frame `k` is marked as used, 1 or 0.
abbrev pub used : PhysicalFrameAllocator → ℕ → ℕ
used a k = bit_at a.memory a.pmmap k

-- Frame `k` is one of the `n` frames from `lo` on.
abbrev pub within : ℕ → ℕ → ℕ → Bool
within lo n k = leb lo k && ltb k (lo + n)

-- `b` has the same table as `a`, but for what the bitmap holds and the count.
pub record SameTable (a b : PhysicalFrameAllocator) : Type 0 where
  pub mem_size : b.mem_size ≡ a.mem_size
  pub max_frames : b.max_frames ≡ a.max_frames
  pub pmmap_size : b.pmmap_size ≡ a.pmmap_size
  pub pmmap : b.pmmap ≡ a.pmmap

-- `b` is `a` with its frames from `lo` on, `n` of them, marked by `v`.
pub record Marked (v lo n : ℕ) (a b : PhysicalFrameAllocator) : Type 0 where
  pub table : SameTable a b
  pub bits : (k : ℕ) → used b k ≡ (if within lo n k then v else used a k)

pub SameTable-refl : (a : PhysicalFrameAllocator) → SameTable a a
SameTable-refl a = record { mem_size = refl; max_frames = refl; pmmap_size = refl; pmmap = refl }

pub SameTable-trans :
    {a b c : PhysicalFrameAllocator} → SameTable a b → SameTable b c → SameTable a c
SameTable-trans p q = record {
  mem_size = q.mem_size ∙ p.mem_size;
  max_frames = q.max_frames ∙ p.max_frames;
  pmmap_size = q.pmmap_size ∙ p.pmmap_size;
  pmmap = q.pmmap ∙ p.pmmap;
}

Marked-zero : (v lo : ℕ) (a : PhysicalFrameAllocator) → Marked v lo 0 a a
Marked-zero v lo a = record { table = SameTable-refl a; bits = λ k. ground arith }

-- One frame, then the frames behind it.
Marked-suc :
    {v n : ℕ} (lo next : ℕ) {a b c : PhysicalFrameAllocator}
    → next ≡ lo + 1
    → SameTable a b
    → ((k : ℕ) → used b k ≡ (if lo == k then v else used a k))
    → Marked v next n b c
    → Marked v lo (suc n) a c
Marked-suc lo next e t h m = record {
  table = SameTable-trans t m.table;
  bits = λ k. ground (arith, h k, m.bits k);
}

-- One round of each loop.
abbrev pub clear_one : PhysicalFrameAllocator → ℕ → PhysicalFrameAllocator
clear_one a frame = record a {
  memory = bitmap_unset a.memory a.pmmap frame;
  used_frames = sub32 a.used_frames 1;
}

abbrev pub take_one : PhysicalFrameAllocator → ℕ → PhysicalFrameAllocator
take_one a frame = record a {
  memory = bitmap_set a.memory a.pmmap frame;
  used_frames = u32 (a.used_frames + 1);
}

-- Clearing the bits of frames and lowering the count, one by one.
pub init_frames-Marked :
    (a : PhysicalFrameAllocator) (frame left : ℕ)
    → frame + left < 2 ^ 32
    → Marked 0 frame left a (init_frames a frame left)
unfolding init_frames
init_frames-Marked a frame zero h = Marked-zero 0 frame a
init_frames-Marked a frame (suc left) h =
    Marked-suc frame (u32 (frame + 1)) (omega arith) same (bit_at-unset a.memory a.pmmap frame)
      (init_frames-Marked (clear_one a frame) (u32 (frame + 1)) left (omega arith))
  where
    same : SameTable a (init_frames a frame 1)
    same = record { mem_size = refl; max_frames = refl; pmmap_size = refl; pmmap = refl }

free_frames-Marked :
    (a : PhysicalFrameAllocator) (frame left : ℕ)
    → frame + left < 2 ^ 32
    → Marked 1 frame left a (free_frames a frame left)
unfolding free_frames
free_frames-Marked a frame zero h = Marked-zero 1 frame a
free_frames-Marked a frame (suc left) h =
    Marked-suc frame (u32 (frame + 1)) (omega arith) same (bit_at-set a.memory a.pmmap frame)
      (free_frames-Marked (take_one a frame) (u32 (frame + 1)) left (omega arith))
  where
    same : SameTable a (free_frames a frame 1)
    same = record { mem_size = refl; max_frames = refl; pmmap_size = refl; pmmap = refl }

init_frames_count :
    (a : PhysicalFrameAllocator) (frame left : ℕ)
    → left ≤ a.used_frames
    → a.used_frames < 2 ^ 32
    → (init_frames a frame left).used_frames ≡ a.used_frames - left
unfolding init_frames
init_frames_count a frame zero h l = omega arith
init_frames_count a frame (suc left) h l =
    ground (arith, init_frames_count (clear_one a frame) (u32 (frame + 1)) left)

free_frames_count :
    (a : PhysicalFrameAllocator) (frame left : ℕ)
    → a.used_frames + left < 2 ^ 32
    → (free_frames a frame left).used_frames ≡ a.used_frames + left
unfolding free_frames
free_frames_count a frame zero h = omega arith
free_frames_count a frame (suc left) h =
    ground (arith, free_frames_count (take_one a frame) (u32 (frame + 1)) left)

-- How many frames `FreeRegion` takes for a size in bytes.
abbrev pub taken_frames : ℕ → ℕ
taken_frames size = if ltb size frame_size then 1 else size / frame_size

-- `FreeRegion` marks the frames of its region as used, at least one of them, and changes no other.
pub free_region-Marked :
    (a : PhysicalFrameAllocator) (base size : ℕ)
    → base < 2 ^ 32
    → size < 2 ^ 32
    → Marked 1 (base / frame_size) (taken_frames size) a (free_region a base size)
unfolding free_region
free_region-Marked a base size h k =
    free_frames-Marked a (base / frame_size) (taken_frames size) (ground arith)

-- `FreeRegion` counts every frame of its region.
pub free_region_count :
    (a : PhysicalFrameAllocator) (base size : ℕ)
    → a.used_frames + taken_frames size < 2 ^ 32
    → (free_region a base size).used_frames ≡ a.used_frames + taken_frames size
unfolding free_region
free_region_count a base size l = free_frames_count a (base / frame_size) (taken_frames size) l

-- For a base and a size of 32 bits `InitRegion` marks the whole frames of its region as free, but
-- frame 0 always as used. It changes no other frame, and of the other members none but the count.
pub init_region_lem :
    (a : PhysicalFrameAllocator) (base size : ℕ)
    → base < 2 ^ 32
    → size < 2 ^ 32
    → SameTable a (init_region a base size)
      × ((k : ℕ)
          → used (init_region a base size) k ≡ (
              if k == 0
              then 1
              else if within (base / frame_size) (size / frame_size) k
              then 0
              else used a k))
unfolding init_region
init_region_lem a base size h k =
    let m = init_frames-Marked a (base / frame_size) (size / frame_size) (omega arith) in
    (
      record {
        mem_size = m.table.mem_size;
        max_frames = m.table.max_frames;
        pmmap_size = m.table.pmmap_size;
        pmmap = m.table.pmmap;
      },
      λ k. ground (
        arith,
        m.bits k,
        bit_at-set (init_frames a (base / frame_size) (size / frame_size)).memory
            (init_frames a (base / frame_size) (size / frame_size)).pmmap 0 k,
      ),
    )

pub init_region_count :
    (a : PhysicalFrameAllocator) (base size : ℕ)
    → size / frame_size ≤ a.used_frames
    → a.used_frames < 2 ^ 32
    → (init_region a base size).used_frames ≡ a.used_frames - size / frame_size
unfolding init_region
init_region_count a base size h l = init_frames_count a _ _ h l
