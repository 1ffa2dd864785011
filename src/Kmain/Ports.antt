-- ===== src/Kmain/Ports.antt =====
-- The two devices on the ports, the interrupt controllers and the display, are apart: what is sent to
-- one does not change the other.
use cosmo.FrameBuffer.{FrameBuffer, send_position}
use cosmo.FrameBuffer.Cursor.{Crtc, crtc}
use cosmo.FrameBuffer.Draws.{IsShown, Quiet, Quiet-keeps}
use cosmo.Idt.Lines.{vector}
use cosmo.Kmain.{init_pic, mask_lines}
use cosmo.Pic.{init, set_mask, clear_mask}
use cosmo.Pic.Chip.{Chip, chip, master, slave, IsReady}
use cosmo.Pic.Masks.{masked}
use cosmo.PortIo.{History, Hardware}
use cosmo.Prelude.{ℕ, zero, suc, ◌+◌, ◌≡◌, refl, ap, ◌∙◌, ltb, Bool-cases, inl, inr}

module _ (start₁ start₂ : Chip) where
  master-send_position :
      (p : ℕ) (h : History) → master start₁ start₂ (send_position p h) ≡ master start₁ start₂ h
  unfolding chip send_position
  master-send_position p h = refl

  slave-send_position :
      (p : ℕ) (h : History) → slave start₁ start₂ (send_position p h) ≡ slave start₁ start₂ h
  unfolding chip send_position
  slave-send_position p h = refl

  -- Both controllers are as they were.
  pub record SameChips (before after : History) : Type 0 where
    pub same_master : master start₁ start₂ after ≡ master start₁ start₂ before
    pub same_slave : slave start₁ start₂ after ≡ slave start₁ start₂ before

  pub Quiet-SameChips : {before after : History} → Quiet before after → SameChips before after
  Quiet-SameChips q = record {
    same_master = Quiet-keeps (master start₁ start₂) master-send_position q;
    same_slave = Quiet-keeps (slave start₁ start₂) slave-send_position q;
  }

  pub IsReady-SameChips :
      {before after : History}
      → SameChips before after
      → IsReady start₁ start₂ before
      → IsReady start₁ start₂ after
  IsReady-SameChips s r = record {
    master_ready = ap (λ (c : Chip). c.phase) s.same_master ∙ r.master_ready;
    slave_ready = ap (λ (c : Chip). c.phase) s.same_slave ∙ r.slave_ready;
    master_byte = rw s.same_master r.master_byte;
    slave_byte = rw s.same_slave r.slave_byte;
  }

  pub masked-SameChips :
      {before after : History}
      → SameChips before after
      → (k : ℕ) → masked start₁ start₂ after k ≡ masked start₁ start₂ before k
  masked-SameChips s k = rw (s.same_master, s.same_slave) refl

  pub vector-SameChips :
      {before after : History}
      → SameChips before after
      → (k : ℕ) → vector start₁ start₂ after k ≡ vector start₁ start₂ before k
  vector-SameChips s k = rw (s.same_master, s.same_slave) refl

module _ (start : Crtc) (hardware : Hardware) where
  crtc-init : (o₁ o₂ : ℕ) (h : History) → crtc start (init hardware o₁ o₂ h).1 ≡ crtc start h
  unfolding crtc init
  crtc-init o₁ o₂ h = refl

  crtc-set_mask : (irq : ℕ) (h : History) → crtc start (set_mask hardware irq h).1 ≡ crtc start h
  unfolding crtc set_mask
  crtc-set_mask irq h = elim (Bool-cases (ltb irq 8)) [ inl e ↦ rw e refl | inr e ↦ rw e refl ]

  crtc-clear_mask :
      (irq : ℕ) (h : History) → crtc start (clear_mask hardware irq h).1 ≡ crtc start h
  unfolding crtc clear_mask
  crtc-clear_mask irq h = elim (Bool-cases (ltb irq 8)) [ inl e ↦ rw e refl | inr e ↦ rw e refl ]

  crtc-mask_lines :
      (i left : ℕ) (h : History) → crtc start (mask_lines hardware i left h).1 ≡ crtc start h
  unfolding mask_lines
  crtc-mask_lines i zero h = refl
  crtc-mask_lines i (suc left) h =
      crtc-mask_lines (i + 1) left (set_mask hardware i h).1 ∙ crtc-set_mask i h

  -- `InitPic` does not move the cursor.
  crtc-init_pic : (h : History) → crtc start (init_pic hardware h).1 ≡ crtc start h
  unfolding init_pic
  crtc-init_pic h =
      let g = (init hardware 0x20 0x28 h).1 in
      crtc-clear_mask 1 (mask_lines hardware 0 8 g).1
      ∙ crtc-mask_lines 0 8 g
      ∙ crtc-init 0x20 0x28 h

  pub init_pic-IsShown :
      (fb : FrameBuffer)
      → IsShown start fb
      → IsShown start (record fb { ports = (init_pic hardware fb.ports).1 })
  init_pic-IsShown fb s = record {
    on_screen = record {
      column = s.on_screen.column;
      row = s.on_screen.row;
      attribute = s.on_screen.attribute;
    };
    shows = rw (crtc-init_pic fb.ports) s.shows;
  }
