-- ===== src/Vmem/Allocator/Refine.antt =====
-- `AllocFrame` and `FreeFrame` against the set of frames, and the allocator's invariant.
use cosmo.Vmem.Allocator.{PhysicalFrameAllocator, alloc_frame, free_frame}
use cosmo.Vmem.Allocator.Regions.{used}
use cosmo.Vmem.Bitmap.{bitmap_set, bitmap_unset}
use cosmo.Vmem.Bitmap.Bit.{bit_at, bit_at-le, bit_at-set, bit_at-unset}
use cosmo.Vmem.Bitmap.First.{
  first_unset, first_unset-IsFirstUnset, bitmap_first_unset_lem, IsFirstUnset,
}
use cosmo.Vmem.FrameSet
use cosmo.Vmem.FrameSet.{FrameSet, mark, count, count-mark, count_full, count-le, count-lt}
use cosmo.Prelude.{
  ℕ, ◌+◌, ◌*◌, ◌/◌, ◌^◌, ◌≤◌, ◌<◌, ◌==◌, ◌≡◌, refl, ◌≢◌, ap, fun_ext, arith, Option, none, some,
  u32, Option-cases, Bool-cases, inl, inr,
}

-- The frames that the allocator has marked as used.
abbrev pub frames : PhysicalFrameAllocator → FrameSet
frames a k = used a k

-- The allocator between two calls. `uncounted` frames are marked as used, but are missing in
-- `used_frames_`: frame 0 is one, since `InitRegion` sets its bit and does not count it.
pub record IsValid (uncounted : ℕ) (a : PhysicalFrameAllocator) : Type 0 where
  pub small : a.max_frames ≤ 2 ^ 20
  pub zero_used : frames a 0 ≡ 1
  pub counted : a.used_frames + uncounted ≡ count (frames a) a.max_frames

-- What `AllocFrame` does on the two results of the search for a free frame.
abbrev allocated : PhysicalFrameAllocator → Option ℕ → ℕ × PhysicalFrameAllocator
allocated a none = (0, a)
allocated a (some r) = (
  u32 (4096 * r),
  record a { memory = bitmap_set a.memory a.pmmap r; used_frames = u32 (a.used_frames + 1) },
)

module _ {uncounted : ℕ} {a : PhysicalFrameAllocator} (v : IsValid uncounted a) where
  search : IsFirstUnset (frames a) 0 a.max_frames (first_unset (frames a) 0 a.max_frames)
  search = first_unset-IsFirstUnset (frames a) 0 a.max_frames a.max_frames (omega arith)

  pub used-le-max : a.used_frames + uncounted ≤ a.max_frames
  used-le-max =
      omega (arith, v.counted, count-le (frames a) a.max_frames (λ k. bit_at-le a.memory a.pmmap k))

  -- The frame that the search finds is a free one below the limit, and not frame 0.
  pub found_free :
      {r : ℕ}
      → first_unset (frames a) 0 a.max_frames ≡ some r
      → (r < a.max_frames) × (frames a r ≡ 0) × (r ≢ 0) × (a.used_frames + uncounted < a.max_frames)
  found_free {r} e =
      let (low, high, unset, before) = rw e at search in
      (
        high,
        unset,
        λ z. omega (arith, v.zero_used, ap (frames a) z, unset),
        omega (
          arith,
          v.counted,
          count-lt (frames a) a.max_frames r (λ k. bit_at-le a.memory a.pmmap k) high unset,
        ),
      )

  -- The limit test turns down no call that the search would serve.
  alloc_frame-allocated : alloc_frame a ≡ allocated a (first_unset (frames a) 0 a.max_frames)
  unfolding alloc_frame
  alloc_frame-allocated = elim (Option-cases (first_unset (frames a) 0 a.max_frames)) [
    | inl e ↦ ground (arith, e, bitmap_first_unset_lem a.memory a.pmmap a.max_frames)
    | inr (r, e) ↦
        let (high, unset, ne, room) = found_free e in
        ground (arith, e, v.small, bitmap_first_unset_lem a.memory a.pmmap a.max_frames)
  ]

  frames-set :
      (r : ℕ) → (λ k. bit_at (bitmap_set a.memory a.pmmap r) a.pmmap k) ≡ mark (frames a) r 1
  frames-set r = fun_ext λ k. bit_at-set a.memory a.pmmap r k

  frames-unset :
      (r : ℕ) → (λ k. bit_at (bitmap_unset a.memory a.pmmap r) a.pmmap k) ≡ mark (frames a) r 0
  frames-unset r = fun_ext λ k. bit_at-unset a.memory a.pmmap r k

  -- With frame 0 used, at most 2^20 frames, and a count that fits the bitmap, `AllocFrame` returns
  -- what the set of frames returns, and leaves the allocator at the new set.
  pub alloc_refines :
      let (frame, b) = alloc_frame a in (frame, frames b) ≡ FrameSet.alloc a.max_frames (frames a)
  unfolding FrameSet.alloc
  alloc_refines = elim (Option-cases (first_unset (frames a) 0 a.max_frames)) [
    | inl e ↦ rw (alloc_frame-allocated, e, FrameSet.alloc)
    | inr (r, e) ↦
        let (high, unset, ne, room) = found_free e in
        let fits : u32 (4096 * r) ≡ 4096 * r = omega (arith, v.small) in
        rw (alloc_frame-allocated, e, fits, frames-set r, FrameSet.alloc)
  ]

  pub alloc_frame-IsValid : IsValid uncounted (alloc_frame a).1
  alloc_frame-IsValid = elim (Option-cases (first_unset (frames a) 0 a.max_frames)) [
    | inl e ↦ rw (alloc_frame-allocated, e) v
    | inr (r, e) ↦
        let (high, unset, ne, room) = found_free e in
        rw (alloc_frame-allocated, e)
          (record {
            small = v.small;
            zero_used = ground (arith, bit_at-set a.memory a.pmmap r 0, v.zero_used);
            counted = omega (
              arith,
              v.counted,
              v.small,
              count-mark (frames a) r 1 a.max_frames high,
              ap (λ f. count f a.max_frames) (frames-set r),
            );
          })
  ]

  -- `FreeFrame` gives back what the set of frames gives back.
  pub free_refines : (frame : ℕ) → frames (free_frame a frame) ≡ FrameSet.free (frames a) frame
  unfolding free_frame FrameSet.free
  free_refines frame = elim (Bool-cases (frame == 0)) [
    | inl null ↦ rw null
    | inr some_frame ↦ rw some_frame (frames-unset (frame / 4096))
  ]

  -- Giving back a used frame other than frame 0, or the null pointer, keeps the invariant.
  pub free_frame-IsValid :
      (frame : ℕ)
      → (frame ≢ 0
          → (frame / 4096 ≢ 0)
            × (frame / 4096 < a.max_frames)
            × (frames a (frame / 4096) ≡ 1)
            × (0 < a.used_frames))
      → IsValid uncounted (free_frame a frame)
  unfolding free_frame
  free_frame-IsValid frame h = elim (Bool-cases (frame == 0)) [
    | inl null ↦ rw null v
    | inr some_frame ↦
        let (ne, high, held, some_used) = h (ground arith) in
        rw some_frame (record {
          small = v.small;
          zero_used = ground (arith, bit_at-unset a.memory a.pmmap (frame / 4096) 0, v.zero_used);
          counted = omega (
            arith,
            v.counted,
            v.small,
            used-le-max,
            count-mark (frames a) (frame / 4096) 0 a.max_frames high,
            ap (λ f. count f a.max_frames) (frames-unset (frame / 4096)),
          );
        })
  ]

-- `b` is `a` after it gave out `frame`, a frame boundary above 0 that was free.
pub record Taken (a : PhysicalFrameAllocator) (frame : ℕ) (b : PhysicalFrameAllocator)
    : Type 0 where
  pub index : ℕ
  pub address : frame ≡ 4096 * index
  pub below : index < a.max_frames
  pub ne_zero : index ≢ 0
  pub was_free : frames a index ≡ 0
  pub bits : (k : ℕ) → frames b k ≡ mark (frames a) index 1 k
  pub max_same : b.max_frames ≡ a.max_frames
  pub used_more : b.used_frames ≡ a.used_frames + 1

module _ {uncounted : ℕ} {a : PhysicalFrameAllocator} (v : IsValid uncounted a) where
  -- A call of `AllocFrame` that does not return the null pointer gives out a free frame.
  pub alloc_frame-Taken : (alloc_frame a).0 ≢ 0 → Taken a (alloc_frame a).0 (alloc_frame a).1
  alloc_frame-Taken h = elim (Option-cases (first_unset (frames a) 0 a.max_frames)) [
    | inl e ↦ absurd (h (rw (alloc_frame-allocated v, e)))
    | inr (r, e) ↦
        let (high, unset, ne, room) = found_free v e in
        rw (alloc_frame-allocated v, e)
          (record {
            index = r;
            address = omega (arith, v.small);
            below = high;
            ne_zero = ne;
            was_free = unset;
            bits = bit_at-set a.memory a.pmmap r;
            max_same = refl;
            used_more = omega (arith, v.small);
          })
  ]

  -- A call that returns the null pointer changes nothing.
  pub alloc_frame_null : (alloc_frame a).0 ≡ 0 → (alloc_frame a).1 ≡ a
  alloc_frame_null h = elim (Option-cases (first_unset (frames a) 0 a.max_frames)) [
    | inl e ↦ rw (alloc_frame-allocated v, e)
    | inr (r, e) ↦
        let (high, unset, ne, room) = found_free v e in
        let null : u32 (4096 * r) ≡ 0 = rw (alloc_frame-allocated v, e) at h in
        absurd (omega (arith, v.small))
  ]
