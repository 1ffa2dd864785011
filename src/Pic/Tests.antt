-- ===== src/Pic/Tests.antt =====
-- Two initialized chips behind ports that read the masks 0xB8 and 0x8E, and the theorems there.
use cosmo.Pic.{pic1_data, pic2_data}
use cosmo.Pic.Chip.{Chip, ready, chip, master, slave, IsPic, IsReady}
use cosmo.PortIo.{Hardware}
use cosmo.Prelude.{◌==◌, if◌then◌else◌, refl, arith, []}

abbrev first : Chip
first = record { phase = ready; icw1 = 0x11; offset = 8; cascade = 4; mode = 1; mask = 0xB8 }

abbrev second : Chip
second = record { phase = ready; icw1 = 0x11; offset = 0x70; cascade = 2; mode = 1; mask = 0x8E }

abbrev ports : Hardware
ports h port =
    if port == pic1_data
    then (master first second h).mask
    else if port == pic2_data
    then (slave first second h).mask
    else 0

ports-IsPic : IsPic first second ports
ports-IsPic = record { reads_master = λ h e. refl; reads_slave = λ h e. refl }

started-IsReady : IsReady first second []
unfolding chip
started-IsReady = record {
  master_ready = refl;
  slave_ready = refl;
  master_byte = omega arith;
  slave_byte = omega arith;
}
