-- ===== src/Vmem/Allocator/Simulation.antt =====
-- The client of the allocator against a client of the set of frames.
use mathlib.Core.Path.{subst}
use cosmo.Vmem.Allocator.{PhysicalFrameAllocator, alloc_frame, free_frame}
use cosmo.Vmem.Allocator.Client.{
  Client, Step, take, refuse, give, Reach, here, next, IsSound, Reach-IsSound,
}
use cosmo.Vmem.Allocator.Refine.{
  frames, alloc_refines, free_refines, alloc_frame_null, alloc_frame-Taken,
}
use cosmo.Vmem.FrameSet
use cosmo.Vmem.FrameSet.{FrameSet}
use cosmo.Prelude.{
  ℕ, ◌≡◌, ◌≢◌, refl, sym, ap, ◌∙◌, true, ◌==◌, Bool-cases, inl, inr, List, ◌∷◌, has, remove,
}

-- A set of used frames, and the frames that its client holds.
pub record SetClient : Type 0 where
  pub used : FrameSet
  pub held : List ℕ

-- One call on the set, for a memory of `max` frames.
pub data SetStep (max : ℕ) : SetClient → SetClient → Type 0 where
  took :
      (c : SetClient)
      → (FrameSet.alloc max c.used).0 ≢ 0
      → SetStep max c (record {
        used = (FrameSet.alloc max c.used).1;
        held = (FrameSet.alloc max c.used).0 ∷ c.held;
      })
  refused : (c : SetClient) → (FrameSet.alloc max c.used).0 ≡ 0 → SetStep max c c
  gave :
      (c : SetClient) (frame : ℕ)
      → has frame c.held ≡ true
      → SetStep max c (record { used = FrameSet.free c.used frame; held = remove frame c.held })

pub data SetReach (max : ℕ) (c : SetClient) : SetClient → Type 0 where
  begun : SetReach max c c
  later : {d e : SetClient} → SetReach max c d → SetStep max d e → SetReach max c e

abbrev pub as_set : Client → SetClient
as_set c = record { used = frames c.allocator; held = c.held }

Step-SetStep :
    {uncounted others : ℕ} {c d : Client}
    → IsSound uncounted others c
    → Step c d
    → SetStep c.allocator.max_frames (as_set c) (as_set d)
Step-SetStep s (take c h) =
    let same = alloc_refines s.valid in
    let address : (alloc_frame c.allocator).0
        ≡ (FrameSet.alloc c.allocator.max_frames (frames c.allocator)).0 =
      ap (λ p. p.0) same in
    let after : frames (alloc_frame c.allocator).1
        ≡ (FrameSet.alloc c.allocator.max_frames (frames c.allocator)).1 =
      ap (λ p. p.1) same in
    rw (address, after) (took (as_set c) (λ e. h (address ∙ e)))
Step-SetStep s (refuse c h) =
    let e = alloc_frame_null s.valid h in
    rw e (refused (as_set c) (sym (ap (λ p. p.0) (alloc_refines s.valid)) ∙ h))
Step-SetStep s (give c frame h) = rw (free_refines s.valid frame) (gave (as_set c) frame h)

free_frame-max :
    (a : PhysicalFrameAllocator) (frame : ℕ) → (free_frame a frame).max_frames ≡ a.max_frames
unfolding free_frame
free_frame-max a frame = elim (Bool-cases (frame == 0)) [ inl e ↦ rw e refl | inr e ↦ rw e refl ]

Step-max :
    {uncounted others : ℕ} {c d : Client}
    → IsSound uncounted others c
    → Step c d
    → d.allocator.max_frames ≡ c.allocator.max_frames
Step-max s (take c h) = (alloc_frame-Taken s.valid h).max_same
Step-max s (refuse c h) = rw (alloc_frame_null s.valid h) refl
Step-max s (give c frame h) = free_frame-max c.allocator frame

-- Whatever calls a client makes from a state in which its frames are distinct and used and the count
-- fits the bitmap, a client of the set of frames that begins with the same frames can make too: it
-- is given the same addresses, is refused at the same calls, and holds and sees the same frames.
pub Reach-SetReach :
    {uncounted others : ℕ} {c d : Client}
    → IsSound uncounted others c
    → Reach c d
    → SetReach c.allocator.max_frames (as_set c) (as_set d)
      × (d.allocator.max_frames ≡ c.allocator.max_frames)
Reach-SetReach s here = (begun, refl)
Reach-SetReach {c} s (next {d} {e} r t) =
    let (before, same) = Reach-SetReach s r in
    let sound = Reach-IsSound s r in
    (
      later before (subst (λ m. SetStep m (as_set d) (as_set e)) same (Step-SetStep sound t)),
      Step-max sound t ∙ same,
    )
