-- ===== src/Vmem/Allocator/Client.antt =====
-- A client of the allocator: it asks for frames and gives back, in any order, frames that it holds.
use cosmo.Vmem.Allocator.{PhysicalFrameAllocator, alloc_frame, free_frame}
use cosmo.Vmem.Allocator.Refine.{
  frames, IsValid, alloc_frame-IsValid, free_frame-IsValid, Taken, alloc_frame-Taken,
  alloc_frame_null, used-le-max,
}
use cosmo.Vmem.Bitmap.Bit.{bit_at-unset}
use cosmo.Prelude.{
  ℕ, ◌+◌, ◌/◌, ◌%◌, ◌<◌, ◌==◌, ◌≡◌, ◌≢◌, refl, arith, true, List, ◌∷◌, length, All, Distinct, has,
  remove, All-mono, All-both, All-has, All-remove, Distinct-remove, remove_apart, length-remove, ap,
  sub32, if◌then◌else◌, Bool-cases, inl, inr,
}

pub record Client : Type 0 where
  pub allocator : PhysicalFrameAllocator
  pub held : List ℕ

-- One call of the client.
pub data Step : Client → Client → Type 0 where
  take :
      (c : Client)
      → (alloc_frame c.allocator).0 ≢ 0
      → Step c (record {
        allocator = (alloc_frame c.allocator).1;
        held = (alloc_frame c.allocator).0 ∷ c.held;
      })
  refuse :
      (c : Client)
      → (alloc_frame c.allocator).0 ≡ 0
      → Step c (record c { allocator = (alloc_frame c.allocator).1 })
  give :
      (c : Client) (frame : ℕ)
      → has frame c.held ≡ true
      → Step c (record { allocator = free_frame c.allocator frame; held = remove frame c.held })

pub data Reach (c : Client) : Client → Type 0 where
  here : Reach c c
  next : {d e : Client} → Reach c d → Step d e → Reach c e

-- A frame that a client may hold: a frame boundary, not frame 0, below the limit, marked as used.
pub record IsFrame (a : PhysicalFrameAllocator) (frame : ℕ) : Type 0 where
  pub boundary : frame % 4096 ≡ 0
  pub ne_zero : frame / 4096 ≢ 0
  pub below : frame / 4096 < a.max_frames
  pub is_used : frames a (frame / 4096) ≡ 1

-- `others` frames are counted as used beside those that the client holds.
pub record IsSound (uncounted others : ℕ) (c : Client) : Type 0 where
  pub valid : IsValid uncounted c.allocator
  pub frames_held : All (IsFrame c.allocator) c.held
  pub distinct : Distinct c.held
  pub counted : c.allocator.used_frames ≡ others + length c.held

-- What `FreeFrame` does on a frame that is not the null pointer.
pub free_frame_lem :
    (a : PhysicalFrameAllocator) (frame : ℕ)
    → frame ≢ 0
    → ((k : ℕ) → frames (free_frame a frame) k ≡ (if frame / 4096 == k then 0 else frames a k))
      × ((free_frame a frame).max_frames ≡ a.max_frames)
      × ((free_frame a frame).used_frames ≡ sub32 a.used_frames 1)
unfolding free_frame
free_frame_lem a frame h = elim (Bool-cases (frame == 0)) [
  | inl null ↦ absurd (h (ground arith))
  | inr some_frame ↦ rw some_frame (bit_at-unset a.memory a.pmmap (frame / 4096), refl, refl)
]

take-IsSound :
    {uncounted others : ℕ} (c : Client)
    → IsSound uncounted others c
    → (alloc_frame c.allocator).0 ≢ 0
    → IsSound uncounted others (record {
      allocator = (alloc_frame c.allocator).1;
      held = (alloc_frame c.allocator).0 ∷ c.held;
    })
take-IsSound c s h = record {
  valid = alloc_frame-IsValid s.valid;
  frames_held = (
    record {
      boundary = omega (arith, t.address);
      ne_zero = omega (arith, t.address, t.ne_zero);
      below = omega (arith, t.address, t.below, t.max_same);
      is_used = ground (arith, t.address, t.bits ((alloc_frame c.allocator).0 / 4096));
    },
    All-mono _ _ c.held IsFrame-taken s.frames_held,
  );
  distinct = (All-mono _ _ c.held apart s.frames_held, s.distinct);
  counted = omega (arith, t.used_more, s.counted);
}
  where
    t : Taken c.allocator (alloc_frame c.allocator).0 (alloc_frame c.allocator).1
    t = alloc_frame-Taken s.valid h

    IsFrame-taken : (x : ℕ) → IsFrame c.allocator x → IsFrame (alloc_frame c.allocator).1 x
    IsFrame-taken x f = record {
      boundary = f.boundary;
      ne_zero = f.ne_zero;
      below = omega (arith, f.below, t.max_same);
      is_used = ground (arith, t.bits (x / 4096), f.is_used);
    }

    apart : (x : ℕ) → IsFrame c.allocator x → x ≢ (alloc_frame c.allocator).0
    apart x f e =
        let place : x / 4096 ≡ t.index = omega (arith, t.address) in
        omega (arith, ap (frames c.allocator) place, f.is_used, t.was_free)

give-IsSound :
    {uncounted others : ℕ} (c : Client) (frame : ℕ)
    → IsSound uncounted others c
    → has frame c.held ≡ true
    → IsSound uncounted others
        (record { allocator = free_frame c.allocator frame; held = remove frame c.held })
give-IsSound c frame s h = record {
  valid = free_frame-IsValid s.valid frame λ ne.
      (own.ne_zero, own.below, own.is_used, omega (arith, s.counted, length-remove frame c.held h));
  frames_held = All-mono _ _ (remove frame c.held) still (
      All-both _ _ (remove frame c.held) (All-remove _ frame c.held s.frames_held)
        (remove_apart frame c.held s.distinct));
  distinct = Distinct-remove frame c.held s.distinct;
  counted = omega (
    arith,
    given.2,
    s.counted,
    s.valid.counted,
    used-le-max s.valid,
    s.valid.small,
    length-remove frame c.held h,
  );
}
  where
    own : IsFrame c.allocator frame
    own = All-has _ frame c.held s.frames_held h

    ne : frame ≢ 0
    ne e = own.ne_zero (omega arith)

    given :
        ((k : ℕ)
          → frames (free_frame c.allocator frame) k
            ≡ (if frame / 4096 == k then 0 else frames c.allocator k))
        × ((free_frame c.allocator frame).max_frames ≡ c.allocator.max_frames)
        × ((free_frame c.allocator frame).used_frames ≡ sub32 c.allocator.used_frames 1)
    given = free_frame_lem c.allocator frame ne

    still : (x : ℕ) → IsFrame c.allocator x × (x ≢ frame) → IsFrame (free_frame c.allocator frame) x
    still x (f, other) = record {
      boundary = f.boundary;
      ne_zero = f.ne_zero;
      below = omega (arith, f.below, given.1);
      is_used = ground (arith, given.0 (x / 4096), f.is_used, f.boundary, own.boundary);
    }

Step-IsSound :
    {uncounted others : ℕ} {c d : Client}
    → Step c d
    → IsSound uncounted others c
    → IsSound uncounted others d
Step-IsSound (take c h) s = take-IsSound c s h
Step-IsSound (refuse c h) s = rw (alloc_frame_null s.valid h) s
Step-IsSound (give c frame h) s = give-IsSound c frame s h

-- Whatever calls a client makes from a state in which its frames are distinct, not null, on frame
-- boundaries, below the limit and marked as used, and in which the count fits the bitmap: they stay
-- so, and the count goes up and down with the frames that it holds.
pub Reach-IsSound :
    {uncounted others : ℕ} {c d : Client}
    → IsSound uncounted others c
    → Reach c d
    → IsSound uncounted others d
Reach-IsSound s here = s
Reach-IsSound s (next r t) = Step-IsSound t (Reach-IsSound s r)
