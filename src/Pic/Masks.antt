-- ===== src/Pic/Masks.antt =====
-- `pic::SetMask` and `pic::ClearMask` on the sixteen interrupt lines.
use native.Mathlib.Nat.{pow-le-pow_right}
use cosmo.Bits.{
  test_bit, test_bit-or, test_bit-and, test_bit-pow, test_bit-not, test_bit-le, bit_or-lt,
  bit_and-lt,
}
use cosmo.Pic.{set_mask, clear_mask, pic1_data, pic2_data}
use cosmo.Pic.Chip.{
  Chip, chip, master, slave, IsPic, IsReady, master_data, slave_data, master-slave_data,
  slave-master_data,
}
use cosmo.PortIo.{got, wrote, History, Hardware}
use cosmo.Prelude.{
  ℕ, ◌-◌, ◌<◌, ◌^◌, ◌≡◌, ◌==◌, refl, arith, ltb, if◌then◌else◌, bit_or, bit_and, not32, u8,
  Bool-cases, inl, inr, ◌∙◌, ◌∷◌, ap,
}

line_bit-lt : (n : ℕ) → n < 8 → 2 ^ n < 2 ^ 8
line_bit-lt n h =
    omega (arith, pow-le-pow_right {n = 2} (omega arith) {i = n} {j = 7} (omega arith))

-- The byte that `SetMask` writes for line `n` of a chip with mask `v`.
set_byte :
    (v n k : ℕ)
    → v < 2 ^ 8
    → n < 8
    → (u8 (u8 (bit_or v (2 ^ n))) < 2 ^ 8)
      × (test_bit (u8 (u8 (bit_or v (2 ^ n)))) k ≡ (if n == k then 1 else test_bit v k))
set_byte v n k h l =
    let fits : u8 (u8 (bit_or v (2 ^ n))) ≡ bit_or v (2 ^ n) =
      omega (arith, bit_or-lt 8 v (2 ^ n) h (line_bit-lt n l)) in
    rw fits (
      bit_or-lt 8 v (2 ^ n) h (line_bit-lt n l),
      ground (arith, test_bit-or v (2 ^ n) k, test_bit-pow n k, test_bit-le v k),
    )

-- The byte that `ClearMask` writes.
clear_byte :
    (v n k : ℕ)
    → v < 2 ^ 8
    → n < 8
    → (u8 (u8 (bit_and v (not32 (2 ^ n)))) < 2 ^ 8)
      × (k < 8
          → test_bit (u8 (u8 (bit_and v (not32 (2 ^ n))))) k ≡ (if n == k then 0 else test_bit v k))
clear_byte v n k h l =
    let fits : u8 (u8 (bit_and v (not32 (2 ^ n)))) ≡ bit_and v (not32 (2 ^ n)) =
      omega (arith, bit_and-lt 8 v (not32 (2 ^ n)) h) in
    rw fits (
      bit_and-lt 8 v (not32 (2 ^ n)) h,
      λ p. ground (
        arith,
        test_bit-and v (not32 (2 ^ n)) k,
        test_bit-not 32 (2 ^ n) k (omega (arith, line_bit-lt n l)) (omega arith),
        test_bit-pow n k,
        test_bit-le v k,
      ),
    )

module _ (start₁ start₂ : Chip) where
  -- Whether line `k` of the sixteen is masked, 1 or 0.
  abbrev pub masked : History → ℕ → ℕ
  masked h k =
      if ltb k 8
      then test_bit (master start₁ start₂ h).mask k
      else test_bit (slave start₁ start₂ h).mask (k - 8)

  -- A new mask for one chip.
  master_write :
      (v k : ℕ) (h : History)
      → v < 2 ^ 8
      → IsReady start₁ start₂ h
      → (masked (wrote pic1_data v ∷ h) k ≡ (if ltb k 8 then test_bit v k else masked h k))
        × IsReady start₁ start₂ (wrote pic1_data v ∷ h)
  master_write v k h l r =
      let new = master_data start₁ start₂ v h r.master_ready in
      let old = slave-master_data start₁ start₂ v h in
      (
        ground (arith, ap (λ (c : Chip). c.mask) new, ap (λ (c : Chip). c.mask) old),
        record {
          master_ready = ap (λ (c : Chip). c.phase) new ∙ r.master_ready;
          slave_ready = ap (λ (c : Chip). c.phase) old ∙ r.slave_ready;
          master_byte = rw new l;
          slave_byte = rw old r.slave_byte;
        },
      )

  slave_write :
      (v k : ℕ) (h : History)
      → v < 2 ^ 8
      → IsReady start₁ start₂ h
      → (masked (wrote pic2_data v ∷ h) k ≡ (if ltb k 8 then masked h k else test_bit v (k - 8)))
        × IsReady start₁ start₂ (wrote pic2_data v ∷ h)
  slave_write v k h l r =
      let new = slave_data start₁ start₂ v h r.slave_ready in
      let old = master-slave_data start₁ start₂ v h in
      (
        ground (arith, ap (λ (c : Chip). c.mask) new, ap (λ (c : Chip). c.mask) old),
        record {
          master_ready = ap (λ (c : Chip). c.phase) old ∙ r.master_ready;
          slave_ready = ap (λ (c : Chip). c.phase) new ∙ r.slave_ready;
          master_byte = rw old r.master_byte;
          slave_byte = rw new l;
        },
      )

  -- A read leaves the chips as they are.
  IsReady-got :
      (port v : ℕ) (h : History) → IsReady start₁ start₂ h → IsReady start₁ start₂ (got port v ∷ h)
  unfolding chip
  IsReady-got port v h r = record {
    master_ready = r.master_ready;
    slave_ready = r.slave_ready;
    master_byte = r.master_byte;
    slave_byte = r.slave_byte;
  }

  masked-got : (port v k : ℕ) (h : History) → masked (got port v ∷ h) k ≡ masked h k
  unfolding chip
  masked-got port v k h = refl

  module _ (hardware : Hardware) (pic : IsPic start₁ start₂ hardware) where
    master_mask :
        (h : History)
        → IsReady start₁ start₂ h
        → u8 (hardware h pic1_data) ≡ (master start₁ start₂ h).mask
    master_mask h r = omega (arith, pic.reads_master h r.master_ready, r.master_byte)

    slave_mask :
        (h : History)
        → IsReady start₁ start₂ h
        → u8 (hardware h pic2_data) ≡ (slave start₁ start₂ h).mask
    slave_mask h r = omega (arith, pic.reads_slave h r.slave_ready, r.slave_byte)

    -- `SetMask` masks its line, one of sixteen, leaves every other line as it was, and both chips
    -- initialized.
    pub set_mask-masked :
        (irq k : ℕ) (h : History)
        → irq < 16
        → k < 16
        → IsReady start₁ start₂ h
        → let g = (set_mask hardware irq h).1 in
          (masked g k ≡ (if irq == k then 1 else masked h k)) × IsReady start₁ start₂ g
    unfolding set_mask
    set_mask-masked irq k h l p r = elim (Bool-cases (ltb irq 8)) [
      | inl low ↦
          let old = (master start₁ start₂ h).mask in
          let b = set_byte old irq k r.master_byte (ground arith) in
          let w = master_write _ k (got pic1_data old ∷ h) b.0 (IsReady-got pic1_data old h r) in
          rw (low, master_mask h r) (ground (arith, w.0, b.1, masked-got pic1_data old k h), w.1)
      | inr high ↦
          let old = (slave start₁ start₂ h).mask in
          let b = set_byte old (irq - 8) (k - 8) r.slave_byte (ground arith) in
          let w = slave_write _ k (got pic2_data old ∷ h) b.0 (IsReady-got pic2_data old h r) in
          rw (high, slave_mask h r) (ground (arith, w.0, b.1, masked-got pic2_data old k h), w.1)
    ]

    -- `ClearMask` unmasks its line, one of sixteen, leaves every other line as it was, and both
    -- chips initialized.
    pub clear_mask-masked :
        (irq k : ℕ) (h : History)
        → irq < 16
        → k < 16
        → IsReady start₁ start₂ h
        → let g = (clear_mask hardware irq h).1 in
          (masked g k ≡ (if irq == k then 0 else masked h k)) × IsReady start₁ start₂ g
    unfolding clear_mask
    clear_mask-masked irq k h l p r = elim (Bool-cases (ltb irq 8)) [
      | inl low ↦
          let old = (master start₁ start₂ h).mask in
          let b = clear_byte old irq k r.master_byte (ground arith) in
          let w = master_write _ k (got pic1_data old ∷ h) b.0 (IsReady-got pic1_data old h r) in
          rw (low, master_mask h r) (ground (arith, w.0, b.1, masked-got pic1_data old k h), w.1)
      | inr high ↦
          let old = (slave start₁ start₂ h).mask in
          let b = clear_byte old (irq - 8) (k - 8) r.slave_byte (ground arith) in
          let w = slave_write _ k (got pic2_data old ∷ h) b.0 (IsReady-got pic2_data old h r) in
          rw (high, slave_mask h r) (ground (arith, w.0, b.1, masked-got pic2_data old k h), w.1)
    ]
