-- ===== src/Pic/Remap.antt =====
-- `pic::Init` on both chips.
use cosmo.Pic.{init}
use cosmo.Pic.Chip.{Chip, ready, chip, master, slave, IsPic, IsReady}
use cosmo.PortIo.{got, History, Hardware}
use cosmo.Prelude.{ℕ, ◌%◌, ◌<◌, ◌^◌, ◌≡◌, ◌∷◌, u8, refl, arith}

-- `c` was initialized with these words, and has this mask.
pub record IsSetUp (c : Chip) (vectors line masked : ℕ) : Type 0 where
  pub phase : c.phase ≡ ready
  pub offset : c.offset ≡ vectors
  pub cascade : c.cascade ≡ line
  pub mode : c.mode ≡ 1
  pub mask : c.mask ≡ masked

module _ (start₁ start₂ : Chip) (hardware : Hardware) (pic : IsPic start₁ start₂ hardware) where
  -- With both controllers initialized before, and two bytes that eight divides as offsets, `Init`
  -- initializes the master with `offset1`, a slave on its line 2 and 8086 mode, the slave with
  -- `offset2`, its identity 2 and 8086 mode, and leaves both masks as they were.
  pub init-IsSetUp :
      (offset1 offset2 : ℕ) (h : History)
      → offset1 < 2 ^ 8
      → offset2 < 2 ^ 8
      → offset1 % 8 ≡ 0
      → offset2 % 8 ≡ 0
      → IsReady start₁ start₂ h
      → let g = (init hardware offset1 offset2 h).1 in
        IsSetUp (master start₁ start₂ g) offset1 4 (master start₁ start₂ h).mask
        × IsSetUp (slave start₁ start₂ g) offset2 2 (slave start₁ start₂ h).mask
  unfolding init chip
  init-IsSetUp o1 o2 h f1 f2 e1 e2 r = (
    record {
      phase = refl;
      offset = omega arith;
      cascade = refl;
      mode = refl;
      mask = omega (arith, pic.reads_master h r.master_ready, r.master_byte);
    },
    record {
      phase = refl;
      offset = omega arith;
      cascade = refl;
      mode = refl;
      mask =
          omega
            (arith, pic.reads_slave (got 33 (u8 (hardware h 33)) ∷ h) r.slave_ready, r.slave_byte);
    },
  )
