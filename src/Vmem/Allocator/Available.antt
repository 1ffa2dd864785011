-- ===== src/Vmem/Allocator/Available.antt =====
-- `InitAvailableRegions` against the memory map as a list of regions.
use cosmo.Boot.Multiboot.{memory_available, mmap_entry_size, mmap_addr_low, mmap_len_low, mmap_type}
use cosmo.Memory.{Memory, load32, load32-lt, load32_ext}
use cosmo.Vmem.Allocator.{
  PhysicalFrameAllocator, init_frames, init_region, available_from, init_available_regions,
  frame_size,
}
use cosmo.Vmem.Allocator.Regions.{
  used, within, SameTable, SameTable-refl, clear_one, SameTable-trans, init_region_lem,
  init_frames-Marked,
}
use cosmo.Vmem.Bitmap.Bit.{bitmap_set_outside, bitmap_unset_outside}
use cosmo.Prelude.{
  ℕ, zero, suc, ◌+◌, ◌-◌, ◌*◌, ◌/◌, ◌^◌, ◌≤◌, ◌<◌, ◌==◌, ◌≡◌, ◌∙◌, refl, arith, Bool, true, false,
  ◌&&◌, ◌||◌, ltb, if◌then◌else◌, Bool-cases, inl, inr, ap, sym, u8, u32,
}

-- Frame `k` is one of the whole frames of an available region among the first `n` entries.
abbrev pub covered : Memory → ℕ → ℕ → ℕ → Bool
covered m mmap zero k = false
covered m mmap (suc n) k =
    (mmap_type m mmap == memory_available
      && within (mmap_addr_low m mmap / frame_size) (mmap_len_low m mmap / frame_size) k)
    || covered m (mmap + mmap_entry_size) n k

-- The number of entries that start below the end of the map.
abbrev pub entries : ℕ → ℕ → ℕ
entries mmap mmap_end = (mmap_end - mmap + 23) / mmap_entry_size

init_frames_below :
    (a : PhysicalFrameAllocator) (frame left x : ℕ)
    → x < a.pmmap
    → (init_frames a frame left).memory x ≡ a.memory x
unfolding init_frames
init_frames_below a frame zero x h = refl
init_frames_below a frame (suc left) x h =
    init_frames_below (clear_one a frame) (u32 (frame + 1)) left x h
    ∙ bitmap_unset_outside a.memory a.pmmap frame x (inl (omega arith))

-- `InitRegion` writes nothing below the bitmap.
init_region_below :
    (a : PhysicalFrameAllocator) (base size x : ℕ)
    → base < 2 ^ 32
    → size < 2 ^ 32
    → x < a.pmmap
    → (init_region a base size).memory x ≡ a.memory x
unfolding init_region
init_region_below a base size x p q h =
    let b = init_frames a (base / frame_size) (size / frame_size) in
    let m = init_frames-Marked a (base / frame_size) (size / frame_size) (omega arith) in
    bitmap_set_outside b.memory b.pmmap 0 x (inl (omega (arith, m.table.pmmap)))
    ∙ init_frames_below a (base / frame_size) (size / frame_size) x h

-- A member of an entry is the same in memories that agree below the end of the map.
member_ext :
    (m m' : Memory) (mmap n o : ℕ)
    → o ≤ 20
    → ((x : ℕ) → x < mmap + 24 * suc n → m x ≡ m' x)
    → load32 m (mmap + o) ≡ load32 m' (mmap + o)
member_ext m m' mmap n o l h =
    load32_ext m m' (mmap + o) λ k p. ap u8 (h (mmap + o + k) (omega arith))

covered_ext :
    (m m' : Memory) (mmap n k : ℕ)
    → ((x : ℕ) → x < mmap + 24 * n → m x ≡ m' x)
    → covered m mmap n k ≡ covered m' mmap n k
covered_ext m m' mmap zero k h = refl
covered_ext m m' mmap (suc n) k h = rw (
  member_ext m m' mmap n 4 (omega arith) h,
  member_ext m m' mmap n 12 (omega arith) h,
  member_ext m m' mmap n 20 (omega arith) h,
  covered_ext m m' (mmap + mmap_entry_size) n k (λ x p. h x (omega arith)),
)

-- `b` is `a` after the regions of the first `n` entries of the map were made available.
pub record IsAvailable (mmap n : ℕ) (a b : PhysicalFrameAllocator) : Type 0 where
  pub table : SameTable a b
  pub bits :
      (k : ℕ) → used b k ≡ (if k == 0 then 1 else if covered a.memory mmap n k then 0 else used a k)

-- One entry: its region is made available, if its type says so.
abbrev entry : PhysicalFrameAllocator → ℕ → PhysicalFrameAllocator
entry a mmap =
    if mmap_type a.memory mmap == memory_available
    then init_region a (mmap_addr_low a.memory mmap) (mmap_len_low a.memory mmap)
    else a

entry_lem :
    (a : PhysicalFrameAllocator) (mmap : ℕ)
    → used a 0 ≡ 1
    → SameTable a (entry a mmap)
      × ((k : ℕ)
          → used (entry a mmap) k
            ≡ (if k == 0 then 1 else if covered a.memory mmap 1 k then 0 else used a k))
      × ((x : ℕ) → x < a.pmmap → a.memory x ≡ (entry a mmap).memory x)
entry_lem a mmap u = elim (Bool-cases (mmap_type a.memory mmap == memory_available)) [
  | inl yes_it_is ↦
      let base = mmap_addr_low a.memory mmap in
      let size = mmap_len_low a.memory mmap in
      let p : base < 2 ^ 32 = load32-lt a.memory (mmap + 4) in
      let q : size < 2 ^ 32 = load32-lt a.memory (mmap + 12) in
      let r = init_region_lem a base size p q in
      rw yes_it_is
        (r.0, λ k. ground (arith, r.1 k), λ x h. sym (init_region_below a base size x p q h))
  | inr other ↦ rw other (SameTable-refl a, λ k. ground (arith, u), λ x h. refl)
]

IsAvailable-suc :
    (mmap n : ℕ) {a b c : PhysicalFrameAllocator}
    → SameTable a b
    → ((k : ℕ)
        → used b k ≡ (if k == 0 then 1 else if covered a.memory mmap 1 k then 0 else used a k))
    → ((x : ℕ) → x < a.pmmap → a.memory x ≡ b.memory x)
    → mmap + 24 * suc n ≤ a.pmmap
    → IsAvailable (mmap + mmap_entry_size) n b c
    → IsAvailable mmap (suc n) a c
IsAvailable-suc mmap n {a} {b} t h m l r = record {
  table = SameTable-trans t r.table;
  bits = λ k. ground (
    arith,
    r.bits k,
    h k,
    covered_ext a.memory b.memory (mmap + mmap_entry_size) n k (λ x p. m x (omega arith)),
  );
}

available_from-IsAvailable :
    (fuel n : ℕ) (a : PhysicalFrameAllocator) (mmap mmap_end : ℕ)
    → entries mmap mmap_end ≡ n
    → n < fuel
    → mmap + 24 * n ≤ a.pmmap
    → used a 0 ≡ 1
    → IsAvailable mmap n a (available_from fuel a mmap mmap_end)
unfolding available_from
available_from-IsAvailable zero n a mmap mmap_end e f l u = absurd (omega arith)
available_from-IsAvailable (suc fuel) zero a mmap mmap_end e f l u =
    let done : ltb mmap mmap_end ≡ false = ground arith in
    rw done (record { table = SameTable-refl a; bits = λ k. ground (arith, u) })
available_from-IsAvailable (suc fuel) (suc n) a mmap mmap_end e f l u =
    let more : ltb mmap mmap_end ≡ true = ground arith in
    let first = entry_lem a mmap u in
    rw more (
      IsAvailable-suc mmap n first.0 first.1 first.2 l (
        available_from-IsAvailable fuel n (entry a mmap) (mmap + mmap_entry_size) mmap_end
          (omega arith) (omega arith) (omega (arith, first.0.pmmap)) (first.1 0)))

-- With the memory map below the bitmap and frame 0 used, `InitAvailableRegions` reads every entry
-- that starts below its end, marks the whole frames of the available regions as free, keeps frame 0
-- used, and changes no other frame. The fuel is enough.
pub init_available_regions-IsAvailable :
    (a : PhysicalFrameAllocator) (mmap mmap_end : ℕ)
    → mmap + 24 * entries mmap mmap_end ≤ a.pmmap
    → used a 0 ≡ 1
    → IsAvailable mmap (entries mmap mmap_end) a (init_available_regions a mmap mmap_end)
unfolding init_available_regions
init_available_regions-IsAvailable a mmap mmap_end l u =
    available_from-IsAvailable _ (entries mmap mmap_end) a mmap mmap_end refl (omega arith) l u
