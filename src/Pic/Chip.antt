-- ===== src/Pic/Chip.antt =====
-- An 8259A as its data sheet describes it, as far as the kernel programs it: the initialization
-- words, and the interrupt mask behind the data port. This is the hardware that the functions of
-- `Pic` talk to, not part of the kernel.
use cosmo.PortIo.{wrote, got, History, Hardware}
use cosmo.Pic.{pic1_command, pic1_data, pic2_command, pic2_data}
use cosmo.Prelude.{ℕ, ◌*◌, ◌/◌, ◌^◌, ◌<◌, ◌≡◌, refl, ◌==◌, [], ◌∷◌, if◌then◌else◌, bit_and}

-- What the chip takes the next byte on its data port for.
pub data Phase : Type 0 where
  icw2 icw3 icw4 ready : Phase

pub record Chip : Type 0 where
  pub phase : Phase
  pub icw1 : ℕ
  pub offset : ℕ
  pub cascade : ℕ
  pub mode : ℕ
  pub mask : ℕ

-- A byte on the data port. Without ICW4 the mode is that of zeros; a single chip has no ICW3.
data_byte : Phase → Chip → ℕ → Chip
data_byte icw2 c v = record c {
  offset = v / 8 * 8;
  phase = if bit_and c.icw1 2 == 0 then icw3 else if bit_and c.icw1 1 == 0 then ready else icw4;
}
data_byte icw3 c v = record c { cascade = v; phase = if bit_and c.icw1 1 == 0 then ready else icw4 }
data_byte icw4 c v = record c { mode = v; phase = ready }
data_byte ready c v = record c { mask = v }

-- ICW1, told by its bit 4, starts the initialization and clears the mask. Other command bytes
-- concern neither the vectors nor the mask.
command_byte : Chip → ℕ → Chip
command_byte c v =
    if bit_and v 0x10 == 0 then c else record c { phase = icw2; icw1 = v; mode = 0; mask = 0 }

module _ (command data_port : ℕ) (start : Chip) where
  -- The chip's state after a history.
  unfoldable pub chip : History → Chip
  unfolding data_byte command_byte
  chip [] = start
  chip (wrote port v ∷ h) =
      let c = chip h in
      if port == command
      then command_byte c v
      else if port == data_port
      then data_byte c.phase c v
      else c
  chip (got port v ∷ h) = chip h

data_byte-ready :
    (p : Phase) (c : Chip) (v : ℕ) → p ≡ ready → data_byte p c v ≡ record c { mask = v }
unfolding data_byte
data_byte-ready icw2 c v e = cc
data_byte-ready icw3 c v e = cc
data_byte-ready icw4 c v e = cc
data_byte-ready ready c v e = refl

module _ (start₁ start₂ : Chip) where
  abbrev pub master : History → Chip
  master = chip pic1_command pic1_data start₁

  abbrev pub slave : History → Chip
  slave = chip pic2_command pic2_data start₂

  -- The data port of a chip that is not being initialized reads its mask.
  pub record IsPic (hardware : Hardware) : Type 0 where
    pub reads_master :
        (h : History) → (master h).phase ≡ ready → hardware h pic1_data ≡ (master h).mask
    pub reads_slave :
        (h : History) → (slave h).phase ≡ ready → hardware h pic2_data ≡ (slave h).mask

  -- Both chips are initialized, and their masks are bytes.
  pub record IsReady (h : History) : Type 0 where
    pub master_ready : (master h).phase ≡ ready
    pub slave_ready : (slave h).phase ≡ ready
    pub master_byte : (master h).mask < 2 ^ 8
    pub slave_byte : (slave h).mask < 2 ^ 8

  -- A byte on the master's data port outside the initialization is its new mask.
  pub master_data :
      (v : ℕ) (h : History)
      → (master h).phase ≡ ready
      → master (wrote pic1_data v ∷ h) ≡ record (master h) { mask = v }
  unfolding chip
  master_data v h e = data_byte-ready (master h).phase (master h) v e

  pub slave_data :
      (v : ℕ) (h : History)
      → (slave h).phase ≡ ready
      → slave (wrote pic2_data v ∷ h) ≡ record (slave h) { mask = v }
  unfolding chip
  slave_data v h e = data_byte-ready (slave h).phase (slave h) v e

  pub master-slave_data : (v : ℕ) (h : History) → master (wrote pic2_data v ∷ h) ≡ master h
  unfolding chip
  master-slave_data v h = refl

  pub slave-master_data : (v : ℕ) (h : History) → slave (wrote pic1_data v ∷ h) ≡ slave h
  unfolding chip
  slave-master_data v h = refl
