-- ===== src/Vmem/Allocator/Reserved.antt =====
-- A client of the allocator that `Init` set up, whose count of used frames need not fit its bitmap.
use cosmo.Vmem.Allocator.{PhysicalFrameAllocator, alloc_frame, free_frame}
use cosmo.Vmem.Allocator.Client.{
  Client, Step, take, refuse, give, Reach, here, next, IsFrame, free_frame_lem,
}
use cosmo.Vmem.Allocator.Refine.{frames}
use cosmo.Vmem.Bitmap.{bitmap_first_unset}
use cosmo.Vmem.Bitmap.Bit.{bit_at-set}
use cosmo.Vmem.Bitmap.First.{bitmap_first_unset-IsFirstUnset}
use cosmo.Vmem.FrameSet.{FrameSet, mark}
use cosmo.Prelude.{
  ℕ, ◌*◌, ◌/◌, ◌^◌, ◌≤◌, ◌<◌, ◌==◌, ◌≡◌, ◌≢◌, ◌∙◌, refl, arith, true, ◌∷◌, All, Distinct, has,
  remove, All-mono, All-both, All-has, All-remove, Distinct-remove, remove_apart, ap, Option-cases,
  sub32, if◌then◌else◌, Bool-cases, inl, inr, ◌⊎◌, u32,
}

-- The allocator between two calls, whatever its count says.
pub record IsTable (a : PhysicalFrameAllocator) : Type 0 where
  pub small : a.max_frames ≤ 2 ^ 20
  pub zero_used : frames a 0 ≡ 1

-- A call of `AllocFrame` changed nothing, or gave out `frame`.
pub record Gives (a : PhysicalFrameAllocator) (frame : ℕ) (b : PhysicalFrameAllocator)
    : Type 0 where
  pub index : ℕ
  pub address : frame ≡ 4096 * index
  pub below : index < a.max_frames
  pub was_free : frames a index ≡ 0
  pub bits : (k : ℕ) → frames b k ≡ mark (frames a) index 1 k
  pub max_same : b.max_frames ≡ a.max_frames

-- The two results of a call.
alloc_frame-cases :
    (a : PhysicalFrameAllocator)
    → IsTable a
    → (alloc_frame a ≡ (0, a))
      ⊎ (((alloc_frame a).0 ≢ 0) × Gives a (alloc_frame a).0 (alloc_frame a).1)
unfolding alloc_frame
alloc_frame-cases a t = elim (Bool-cases (sub32 a.used_frames a.max_frames == 0)) [
  | inl b ↦ inl (rw b refl)
  | inr b ↦ elim (Option-cases (bitmap_first_unset a.memory a.pmmap a.max_frames)) [
    | inl e ↦ inl (rw (b, e) refl)
    | inr (r, e) ↦
        let (low, high, unset, before) =
          rw e at (bitmap_first_unset-IsFirstUnset a.memory a.pmmap a.max_frames) in
        let fits : u32 (4096 * r) ≡ 4096 * r = omega (arith, t.small) in
        let ne : r ≢ 0 = λ z. omega (arith, t.zero_used, ap (frames a) z, unset) in
        inr (
          rw (b, e, fits) (λ z. ne (omega arith)),
          rw (b, e, fits)
              (record {
                index = r;
                address = refl;
                below = high;
                was_free = unset;
                bits = bit_at-set a.memory a.pmmap r;
                max_same = refl;
              }),
        )
  ]
]

-- A frame that a client may hold, and that `initial` says is free.
abbrev pub IsGiven : FrameSet → PhysicalFrameAllocator → ℕ → Type 0
IsGiven initial a frame = IsFrame a frame × (initial (frame / 4096) ≡ 0)

-- `initial` is the set of used frames when the client started.
pub record IsReserved (initial : FrameSet) (c : Client) : Type 0 where
  pub table : IsTable c.allocator
  -- Every frame that was used is used.
  pub kept : (k : ℕ) → initial k ≤ frames c.allocator k
  pub given : All (IsGiven initial c.allocator) c.held
  pub distinct : Distinct c.held

module _ {initial : FrameSet} (zero_used : initial 0 ≡ 1) where
  take-IsReserved :
      (c : Client)
      → IsReserved initial c
      → Gives c.allocator (alloc_frame c.allocator).0 (alloc_frame c.allocator).1
      → IsReserved initial (record {
        allocator = (alloc_frame c.allocator).1;
        held = (alloc_frame c.allocator).0 ∷ c.held;
      })
  take-IsReserved c s t = record {
    table = record {
      small = omega (arith, t.max_same, s.table.small);
      zero_used = ground (arith, t.bits 0, s.table.zero_used);
    };
    kept = λ k. ground (arith, t.bits k, s.kept k, was_free);
    given = (
      (
        record {
          boundary = omega (arith, t.address);
          ne_zero = λ e. ne_zero (omega (arith, t.address));
          below = omega (arith, t.address, t.below, t.max_same);
          is_used = ground (arith, place, t.bits ((alloc_frame c.allocator).0 / 4096));
        },
        ap initial place ∙ was_free,
      ),
      All-mono _ _ c.held still s.given,
    );
    distinct = (All-mono _ _ c.held apart s.given, s.distinct);
  }
    where
      was_free : initial t.index ≡ 0
      was_free = omega (arith, s.kept t.index, t.was_free)

      ne_zero : t.index ≢ 0
      ne_zero e = omega (arith, ap initial e, zero_used, was_free)

      place : (alloc_frame c.allocator).0 / 4096 ≡ t.index
      place = omega (arith, t.address)

      still :
          (x : ℕ) → IsGiven initial c.allocator x → IsGiven initial (alloc_frame c.allocator).1 x
      still x (f, free) = (
        record {
          boundary = f.boundary;
          ne_zero = f.ne_zero;
          below = omega (arith, f.below, t.max_same);
          is_used = ground (arith, t.bits (x / 4096), f.is_used);
        },
        free,
      )

      apart : (x : ℕ) → IsGiven initial c.allocator x → x ≢ (alloc_frame c.allocator).0
      apart x (f, free) e =
          let same : x / 4096 ≡ t.index = omega (arith, place) in
          omega (arith, ap (frames c.allocator) same, f.is_used, t.was_free)

  give-IsReserved :
      (c : Client) (frame : ℕ)
      → IsReserved initial c
      → has frame c.held ≡ true
      → IsReserved initial
          (record { allocator = free_frame c.allocator frame; held = remove frame c.held })
  give-IsReserved c frame s h = record {
    table = record {
      small = omega (arith, given.1, s.table.small);
      zero_used = ground (arith, given.0 0, s.table.zero_used, own.0.ne_zero);
    };
    kept = λ k. elim (Bool-cases (frame / 4096 == k)) [
      | inl e ↦ let same : frame / 4096 ≡ k = ground arith in omega (arith, ap initial same, own.1)
      | inr e ↦ ground (arith, given.0 k, s.kept k)
    ];
    given = All-mono _ _ (remove frame c.held) still (
        All-both _ _ (remove frame c.held) (All-remove _ frame c.held s.given)
          (remove_apart frame c.held s.distinct));
    distinct = Distinct-remove frame c.held s.distinct;
  }
    where
      own : IsGiven initial c.allocator frame
      own = All-has _ frame c.held s.given h

      given :
          ((k : ℕ)
            → frames (free_frame c.allocator frame) k
              ≡ (if frame / 4096 == k then 0 else frames c.allocator k))
          × ((free_frame c.allocator frame).max_frames ≡ c.allocator.max_frames)
          × ((free_frame c.allocator frame).used_frames ≡ sub32 c.allocator.used_frames 1)
      given = free_frame_lem c.allocator frame (λ e. own.0.ne_zero (omega arith))

      still :
          (x : ℕ)
          → IsGiven initial c.allocator x × (x ≢ frame)
          → IsGiven initial (free_frame c.allocator frame) x
      still x ((f, free), other) = (
        record {
          boundary = f.boundary;
          ne_zero = f.ne_zero;
          below = omega (arith, f.below, given.1);
          is_used = ground (arith, given.0 (x / 4096), f.is_used, f.boundary, own.0.boundary);
        },
        free,
      )

  Step-IsReserved : {c d : Client} → Step c d → IsReserved initial c → IsReserved initial d
  Step-IsReserved (take c h) s = elim (alloc_frame-cases c.allocator s.table) [
    | inl e ↦ absurd (h (ap (λ p. p.0) e))
    | inr (ne, t) ↦ take-IsReserved c s t
  ]
  Step-IsReserved (refuse c h) s = elim (alloc_frame-cases c.allocator s.table) [
    | inl e ↦ rw e s
    | inr (ne, t) ↦ absurd (ne h)
  ]
  Step-IsReserved (give c frame h) s = give-IsReserved c frame s h

  pub Reach-IsReserved : {c d : Client} → IsReserved initial c → Reach c d → IsReserved initial d
  Reach-IsReserved s here = s
  Reach-IsReserved s (next r t) = Step-IsReserved t (Reach-IsReserved s r)
