-- ===== src/Vmem/Bitmap/First.antt =====
-- `BitmapFirstUnset`, which skips full words, against a plain scan of the bits.
use cosmo.Bits.{test_bit, test_bit-not, test_bit-zero, bit_and-pow_zero_iff}
use cosmo.Memory.{Memory, load32}
use cosmo.Vmem.Bitmap.{word_address, scan_bits, scan_words, bitmap_first_unset}
use cosmo.Vmem.Bitmap.Bit.{bit_at}
use cosmo.Prelude.{
  ℕ, zero, suc, ◌+◌, ◌-◌, ◌*◌, ◌/◌, ◌%◌, ◌≤◌, ◌<◌, ◌==◌, ◌≡◌, ◌≢◌, refl, ap, ◌∙◌, if◌then◌else◌,
  arith, Option, none, some, Bool-cases, inl, inr,
}

-- The first index from `i` on, among `left` many, at which `f` is 0.
unfoldable pub first_unset : (ℕ → ℕ) → ℕ → ℕ → Option ℕ
first_unset f i zero = none
first_unset f i (suc left) =
    let rest = first_unset f (i + 1) left in if f i == 0 then some i else rest

-- A result of such a scan.
abbrev pub IsFirstUnset : (ℕ → ℕ) → ℕ → ℕ → Option ℕ → Type 0
IsFirstUnset f i n none = (k : ℕ) → i ≤ k → k < n → f k ≢ 0
IsFirstUnset f i n (some r) = (i ≤ r) × (r < n) × (f r ≡ 0) × ((k : ℕ) → i ≤ k → k < r → f k ≢ 0)

abbrev or_else : Option ℕ → Option ℕ → Option ℕ
or_else none d = d
or_else (some r) d = some r

module _ (f : ℕ → ℕ) where
  IsFirstUnset-next :
      (i n : ℕ) (o : Option ℕ) → f i ≢ 0 → IsFirstUnset f (i + 1) n o → IsFirstUnset f i n o
  IsFirstUnset-next i n none p h = λ k q l e. elim (Bool-cases (i == k)) [
    | inl same ↦ let d : i ≡ k = ground arith in p (ap f d ∙ e)
    | inr other ↦ h k (ground arith) l e
  ]
  IsFirstUnset-next i n (some r) p (a, b, c, h) = (
    omega arith,
    b,
    c,
    λ k q l e. elim (Bool-cases (i == k)) [
      | inl same ↦ let d : i ≡ k = ground arith in p (ap f d ∙ e)
      | inr other ↦ h k (ground arith) l e
    ],
  )

  pub first_unset-IsFirstUnset :
      (i left n : ℕ) → i + left ≡ n → IsFirstUnset f i n (first_unset f i left)
  unfolding first_unset
  first_unset-IsFirstUnset i zero n e = λ k p q. absurd (omega arith)
  first_unset-IsFirstUnset i (suc left) n e = elim (Bool-cases (f i == 0)) [
    | inl hit ↦ rw hit (omega arith, omega arith, ground arith, λ k p q. absurd (omega arith))
    | inr miss ↦ rw miss (
        IsFirstUnset-next i n (first_unset f (i + 1) left) (ground arith)
          (first_unset-IsFirstUnset (i + 1) left n (omega arith)))
  ]

  -- A scan in two parts.
  first_unset-add :
      (i a b : ℕ) → first_unset f i (a + b) ≡ or_else (first_unset f i a) (first_unset f (i + a) b)
  unfolding first_unset
  first_unset-add i zero b = ground arith
  first_unset-add i (suc a) b =
      let e : suc a + b ≡ suc (a + b) = omega arith in
      let d : i + suc a ≡ i + 1 + a = omega arith in
      rw (e, d) (ground (arith, first_unset-add (i + 1) a b))

-- A scan sees only the values in its range.
first_unset_ext :
    (f g : ℕ → ℕ) (i left c : ℕ)
    → ((k : ℕ) → i ≤ k → k < i + left → f k ≡ g (c + k))
    → (elim (first_unset f i left) [ none ↦ none | some r ↦ some (c + r) ])
      ≡ first_unset g (c + i) left
unfolding first_unset
first_unset_ext f g i zero c h = refl
first_unset_ext f g i (suc left) c h = ground (
  arith,
  h i (omega arith) (omega arith),
  first_unset_ext f g (i + 1) left c (λ k p q. h k (omega arith) (omega arith)),
)

scan_bits-first_unset :
    (word j left : ℕ) → scan_bits word j left ≡ first_unset (test_bit word) j left
unfolding scan_bits first_unset
scan_bits-first_unset word j zero = refl
scan_bits-first_unset word j (suc left) =
    ground (arith, bit_and-pow_zero_iff word j, scan_bits-first_unset word (j + 1) left)

-- Bit `j` of word `i` is bit `32 * i + j` of the bitmap.
bit_at_word :
    (m : Memory) (bitmap i j : ℕ)
    → j < 32
    → test_bit (load32 m (word_address bitmap i)) j ≡ bit_at m bitmap (i * 32 + j)
unfolding bit_at
bit_at_word m bitmap i j p =
    let word : (i * 32 + j) / 32 ≡ i = omega arith in
    let bit : (i * 32 + j) % 32 ≡ j = omega arith in rw (word, bit)

-- A word of ones has no bit unset.
first_unset_full :
    (f : ℕ → ℕ) (i left : ℕ)
    → ((k : ℕ) → i ≤ k → k < i + left → f k ≡ 1)
    → first_unset f i left ≡ none
unfolding first_unset
first_unset_full f i zero h = refl
first_unset_full f i (suc left) h = ground (
  arith,
  h i (omega arith) (omega arith),
  first_unset_full f (i + 1) left (λ k p q. h k (omega arith) (omega arith)),
)

word_full :
    (m : Memory) (bitmap i : ℕ)
    → load32 m (word_address bitmap i) ≡ 0xffff_ffff
    → first_unset (bit_at m bitmap) (i * 32) 32 ≡ none
word_full m bitmap i e = first_unset_full (bit_at m bitmap) (i * 32) 32 λ k p q.
    let place : i * 32 + (k - i * 32) ≡ k = omega arith in
    omega (
      arith,
      bit_at_word m bitmap i (k - i * 32) (omega arith),
      ap (λ w. test_bit w (k - i * 32)) e,
      ap (bit_at m bitmap) place,
      test_bit-not 32 0 (k - i * 32) (omega arith) (omega arith),
      test_bit-zero (k - i * 32),
    )

word_scan :
    (m : Memory) (bitmap i n : ℕ)
    → n ≤ 32
    → (elim (scan_bits (load32 m (word_address bitmap i)) 0 n) [
      | none ↦ none
      | some j ↦ some (i * 32 + j)
    ])
      ≡ first_unset (bit_at m bitmap) (i * 32 + 0) n
word_scan m bitmap i n p = rw (scan_bits-first_unset (load32 m (word_address bitmap i)) 0 n) (
    first_unset_ext _ (bit_at m bitmap) 0 n (i * 32)
      λ k q l. bit_at_word m bitmap i k (omega arith))

scan_words-first_unset :
    (m : Memory) (bitmap i left : ℕ)
    → scan_words m bitmap i left ≡ first_unset (bit_at m bitmap) (i * 32) (left * 32)
unfolding scan_words
scan_words-first_unset m bitmap i zero = unfold first_unset in refl
scan_words-first_unset m bitmap i (suc left) =
    let width : suc left * 32 ≡ 32 + left * 32 = omega arith in
    let from : i * 32 + 0 ≡ i * 32 = omega arith in
    let next : (i + 1) * 32 ≡ i * 32 + 32 = omega arith in
    rw width (
      ground (
        arith,
        first_unset-add (bit_at m bitmap) (i * 32) 32 (left * 32),
        word_full m bitmap i,
        rw from at (word_scan m bitmap i 32 (omega arith)),
        rw next at (scan_words-first_unset m bitmap (i + 1) left),
      ))

first_unset-none : (f : ℕ → ℕ) (i : ℕ) → first_unset f i 0 ≡ none
unfolding first_unset
first_unset-none f i = refl

-- `BitmapFirstUnset` returns what the scan of the first `size` bits returns.
pub bitmap_first_unset_lem :
    (m : Memory) (bitmap size : ℕ)
    → bitmap_first_unset m bitmap size ≡ first_unset (bit_at m bitmap) 0 size
unfolding bitmap_first_unset
bitmap_first_unset_lem m bitmap size =
    let parts : size ≡ size / 32 * 32 + size % 32 = omega arith in
    let from : size / 32 * 32 + 0 ≡ size / 32 * 32 = omega arith in
    let scan = first_unset-add (bit_at m bitmap) 0 (size / 32 * 32) (size % 32) in
    let tail = rw from at (word_scan m bitmap (size / 32) (size % 32) (omega arith)) in
    ground (
      arith,
      ap (first_unset (bit_at m bitmap) 0) parts,
      scan,
      tail,
      scan_words-first_unset m bitmap 0 (size / 32),
      first_unset-none (bit_at m bitmap) (size / 32 * 32),
    )

-- `BitmapFirstUnset` returns the least index below `size` whose bit is 0, and -1 only if every bit
-- below `size` is set.
pub bitmap_first_unset-IsFirstUnset :
    (m : Memory) (bitmap size : ℕ)
    → IsFirstUnset (bit_at m bitmap) 0 size (bitmap_first_unset m bitmap size)
bitmap_first_unset-IsFirstUnset m bitmap size =
    rw (bitmap_first_unset_lem m bitmap size)
      (first_unset-IsFirstUnset (bit_at m bitmap) 0 size size (omega arith))
