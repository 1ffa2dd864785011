-- ===== src/Vmem/FrameSet.antt =====
-- What the allocator promises: a set of frames, as its characteristic function into 0 and 1, with
-- `alloc` taking the least free frame and `free` giving one back. A frame is named by its address.
use cosmo.Vmem.Bitmap.First.{first_unset}
use cosmo.Prelude.{
  ℕ, zero, suc, ◌+◌, ◌*◌, ◌/◌, ◌≤◌, ◌<◌, ◌==◌, ◌≡◌, refl, arith, if◌then◌else◌, none, some,
}

abbrev pub FrameSet : Type 0
FrameSet = ℕ → ℕ

abbrev pub mark : FrameSet → ℕ → ℕ → FrameSet
mark f r v k = if r == k then v else f k

unfoldable pub alloc : ℕ → FrameSet → ℕ × FrameSet
alloc max f = elim (first_unset f 0 max) [ none ↦ (0, f) | some r ↦ (4096 * r, mark f r 1) ]

unfoldable pub free : FrameSet → ℕ → FrameSet
free f frame = if frame == 0 then f else mark f (frame / 4096) 0

-- How many of the frames below `n` are in use.
unfoldable pub count : FrameSet → ℕ → ℕ
count f zero = 0
count f (suc n) = f n + count f n

pub count-mark_out : (f : FrameSet) (r v n : ℕ) → n ≤ r → count (mark f r v) n ≡ count f n
unfolding count
count-mark_out f r v zero h = refl
count-mark_out f r v (suc n) h = ground (arith, count-mark_out f r v n)

pub count-mark : (f : FrameSet) (r v n : ℕ) → r < n → count (mark f r v) n + f r ≡ count f n + v
unfolding count
count-mark f r v zero h = absurd (omega arith)
count-mark f r v (suc n) h = ground (arith, count-mark f r v n, count-mark_out f r v n)

pub count_full : (f : FrameSet) (n : ℕ) → ((k : ℕ) → k < n → f k ≡ 1) → count f n ≡ n
unfolding count
count_full f zero h = refl
count_full f (suc n) h = omega (arith, h n (omega arith), count_full f n (λ k l. h k (omega arith)))

pub count-le : (f : FrameSet) (n : ℕ) → ((k : ℕ) → f k ≤ 1) → count f n ≤ n
unfolding count
count-le f zero h = omega arith
count-le f (suc n) h = omega (arith, h n, count-le f n h)

-- A free frame leaves the count below the number of frames.
pub count-lt : (f : FrameSet) (n k : ℕ) → ((j : ℕ) → f j ≤ 1) → k < n → f k ≡ 0 → count f n < n
unfolding count
count-lt f zero k h l e = absurd (omega arith)
count-lt f (suc n) k h l e = grind (arith, h n, count-le f n h, count-lt f n k h)
