-- ===== src/Pic/Offsets.antt =====
-- The vectors of the controllers while lines are masked and unmasked.
use cosmo.Pic.{set_mask, clear_mask, pic1_data, pic2_data}
use cosmo.Pic.Chip.{Chip, chip, master, slave, IsReady, master_data, slave_data}
use cosmo.PortIo.{got, wrote, History, Hardware}
use cosmo.Prelude.{ℕ, ◌≡◌, ◌∷◌, refl, ap, ltb, Bool-cases, inl, inr}

module _ (start₁ start₂ : Chip) where
  -- Both controllers send the vectors that they sent before.
  pub record SameOffsets (before after : History) : Type 0 where
    pub master_offset : (master start₁ start₂ after).offset ≡ (master start₁ start₂ before).offset
    pub slave_offset : (slave start₁ start₂ after).offset ≡ (slave start₁ start₂ before).offset

  master_mask-SameOffsets :
      (a v : ℕ) (h : History)
      → IsReady start₁ start₂ h
      → SameOffsets h (wrote pic1_data v ∷ got pic1_data a ∷ h)
  unfolding chip
  master_mask-SameOffsets a v h r = record {
    master_offset = ap (λ (c : Chip). c.offset) (master_data start₁ start₂ v h r.master_ready);
    slave_offset = refl;
  }

  slave_mask-SameOffsets :
      (a v : ℕ) (h : History)
      → IsReady start₁ start₂ h
      → SameOffsets h (wrote pic2_data v ∷ got pic2_data a ∷ h)
  unfolding chip
  slave_mask-SameOffsets a v h r = record {
    master_offset = refl;
    slave_offset = ap (λ (c : Chip). c.offset) (slave_data start₁ start₂ v h r.slave_ready);
  }

  pub set_mask-SameOffsets :
      (hardware : Hardware) (irq : ℕ) (h : History)
      → IsReady start₁ start₂ h
      → SameOffsets h (set_mask hardware irq h).1
  unfolding set_mask
  set_mask-SameOffsets hardware irq h r = elim (Bool-cases (ltb irq 8)) [
    | inl e ↦ rw e (master_mask-SameOffsets _ _ h r)
    | inr e ↦ rw e (slave_mask-SameOffsets _ _ h r)
  ]

  pub clear_mask-SameOffsets :
      (hardware : Hardware) (irq : ℕ) (h : History)
      → IsReady start₁ start₂ h
      → SameOffsets h (clear_mask hardware irq h).1
  unfolding clear_mask
  clear_mask-SameOffsets hardware irq h r = elim (Bool-cases (ltb irq 8)) [
    | inl e ↦ rw e (master_mask-SameOffsets _ _ h r)
    | inr e ↦ rw e (slave_mask-SameOffsets _ _ h r)
  ]
