-- ===== src/Kmain/Lines.antt =====
-- The lines that `InitPic` masks.
use cosmo.Bits.{test_bit}
use cosmo.Idt.Lines.{vector}
use cosmo.Kmain.{init_pic, mask_lines}
use cosmo.Pic.{init, set_mask}
use cosmo.Pic.Chip.{Chip, master, slave, IsPic, IsReady}
use cosmo.Pic.Masks.{masked, set_mask-masked, clear_mask-masked}
use cosmo.Pic.Offsets.{SameOffsets, set_mask-SameOffsets, clear_mask-SameOffsets}
use cosmo.Pic.Remap.{init-IsSetUp}
use cosmo.PortIo.{History, Hardware}
use cosmo.Prelude.{
  ℕ, zero, suc, ◌+◌, ◌-◌, ◌<◌, ◌≤◌, ◌≡◌, ◌==◌, ◌&&◌, ◌∙◌, ap, refl, arith, ltb, leb, if◌then◌else◌,
}

same_masks :
    (start₁ start₂ : Chip) (g h : History) (k : ℕ)
    → (master start₁ start₂ g).mask ≡ (master start₁ start₂ h).mask
    → (slave start₁ start₂ g).mask ≡ (slave start₁ start₂ h).mask
    → masked start₁ start₂ g k ≡ masked start₁ start₂ h k
same_masks start₁ start₂ g h k e f =
    ground (arith, ap (λ (m : ℕ). test_bit m k) e, ap (λ (m : ℕ). test_bit m (k - 8)) f)

module _ (start₁ start₂ : Chip) (hardware : Hardware) (pic : IsPic start₁ start₂ hardware) where
  mask_lines-masked :
      (i left k : ℕ) (h : History)
      → i + left ≤ 8
      → k < 16
      → IsReady start₁ start₂ h
      → let g = (mask_lines hardware i left h).1 in
        (masked start₁ start₂ g k
          ≡ (if leb i k && ltb k (i + left) then 1 else masked start₁ start₂ h k))
        × IsReady start₁ start₂ g
        × SameOffsets start₁ start₂ h g
  unfolding mask_lines
  mask_lines-masked i zero k h b l r =
      (ground arith, r, record { master_offset = refl; slave_offset = refl })
  mask_lines-masked i (suc left) k h b l r =
      let first = set_mask-masked start₁ start₂ hardware pic i k h (omega arith) l r in
      let same = set_mask-SameOffsets start₁ start₂ hardware i h r in
      let rest =
        mask_lines-masked (i + 1) left k (set_mask hardware i h).1 (omega arith) l first.1 in
      (
        ground (arith, first.0, rest.0),
        rest.1,
        record {
          master_offset = rest.2.master_offset ∙ same.master_offset;
          slave_offset = rest.2.slave_offset ∙ same.slave_offset;
        },
      )

  -- With both controllers initialized before, `InitPic` leaves them so. Of the master's eight lines
  -- it leaves all but the keyboard's masked, and the slave's as they were. The sixteen lines send the
  -- vectors from 32 on.
  pub init_pic-masked :
      (k : ℕ) (h : History)
      → k < 16
      → IsReady start₁ start₂ h
      → let g = (init_pic hardware h).1 in
        (masked start₁ start₂ g k
          ≡ (if k == 1 then 0 else if ltb k 8 then 1 else masked start₁ start₂ h k))
        × IsReady start₁ start₂ g
        × (vector start₁ start₂ g k ≡ 32 + k)
  unfolding init_pic
  init_pic-masked k h l r =
      let g₀ = (init hardware 0x20 0x28 h).1 in
      let set =
        init-IsSetUp start₁ start₂ hardware pic 0x20 0x28 h (omega arith) (omega arith) refl refl
          r in
      let ready : IsReady start₁ start₂ g₀ = record {
        master_ready = set.0.phase;
        slave_ready = set.1.phase;
        master_byte = omega (arith, set.0.mask, r.master_byte);
        slave_byte = omega (arith, set.1.mask, r.slave_byte);
      } in
      let kept : masked start₁ start₂ g₀ k ≡ masked start₁ start₂ h k =
        same_masks start₁ start₂ g₀ h k set.0.mask set.1.mask in
      let all = mask_lines-masked 0 8 k g₀ (omega arith) l ready in
      let key =
        clear_mask-masked start₁ start₂ hardware pic 1 k (mask_lines hardware 0 8 g₀).1
          (omega arith) l all.1 in
      let same =
        clear_mask-SameOffsets start₁ start₂ hardware 1 (mask_lines hardware 0 8 g₀).1 all.1 in
      (
        ground (arith, kept, all.0, key.0),
        key.1,
        ground (
          arith, same.master_offset, same.slave_offset, all.2.master_offset, all.2.slave_offset,
          set.0.offset, set.1.offset,
        ),
      )
