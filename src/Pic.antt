-- ===== src/Pic.antt =====
-- src/ProgrammableInterruptController/ProgrammableInterruptController.cc and its header: the
-- functions of the namespace `pic`, as programs over the I/O ports.
pub mod Chip
pub mod Masks
pub mod Offsets
pub mod Remap
mod Tests
use cosmo.PortIo.{Hardware, Io, pure, ◌>>=◌, ◌>>◌, outb, inb, io_wait}
use cosmo.Prelude.{ℕ, ◌-◌, ◌*◌, ◌^◌, bit_and, bit_or, not32, ltb, leb, if◌then◌else◌, u8, u16, ◌%◌}

-- `PicPort`.
abbrev pub pic1_command : ℕ
pic1_command = 0x20

abbrev pub pic1_data : ℕ
pic1_data = 0x21

abbrev pub pic2_command : ℕ
pic2_command = 0xA0

abbrev pub pic2_data : ℕ
pic2_data = 0xA1

abbrev pub pic_read_irr : ℕ
pic_read_irr = 0x0A

abbrev pub pic_read_isr : ℕ
pic_read_isr = 0x0B

-- `Icw`, as far as it is in use.
abbrev pub icw1_icw4 : ℕ
icw1_icw4 = 0x01

abbrev pub icw1_init : ℕ
icw1_init = 0x10

abbrev pub icw4_8086 : ℕ
icw4_8086 = 0x01

-- `kDefaultMasterOffset` and `kDefaultSlaveOffset`.
abbrev pub default_master_offset : ℕ
default_master_offset = 0x20

abbrev pub default_slave_offset : ℕ
default_slave_offset = 0x28

-- The source leaves the order of the two reads to the compiler; here the slave is read first.
unfoldable pub get_irq_reg : Hardware → ℕ → Io ℕ
get_irq_reg hardware ocw3 = do
  outb pic1_command ocw3
  outb pic2_command ocw3
  slave ← inb hardware pic2_command
  master ← inb hardware pic1_command
  pure (u16 (bit_or (slave * 2 ^ 8) master))

unfoldable pub send_eoi : ℕ → Io (Unit {0})
send_eoi irq =
    if leb 8 irq then outb pic2_command 0x20 >> outb pic1_command 0x20 else outb pic1_command 0x20

unfoldable pub init : Hardware → ℕ → ℕ → Io (Unit {0})
init hardware offset1 offset2 = do
  a1 ← inb hardware pic1_data
  a2 ← inb hardware pic2_data
  outb pic1_command (bit_or icw1_init icw1_icw4)
  io_wait
  outb pic2_command (bit_or icw1_init icw1_icw4)
  io_wait
  outb pic1_data offset1
  io_wait
  outb pic2_data offset2
  io_wait
  outb pic1_data 4
  io_wait
  outb pic2_data 2
  io_wait
  outb pic1_data icw4_8086
  io_wait
  outb pic2_data icw4_8086
  io_wait
  outb pic1_data a1
  outb pic2_data a2

unfoldable pub set_mask : Hardware → ℕ → Io (Unit {0})
set_mask hardware irq_line =
    let port = if ltb irq_line 8 then pic1_data else pic2_data in
    let line = if ltb irq_line 8 then irq_line else irq_line - 8 in
    do value ← inb hardware port; outb port (u8 (bit_or value (2 ^ line)))

unfoldable pub clear_mask : Hardware → ℕ → Io (Unit {0})
clear_mask hardware irq_line =
    let port = if ltb irq_line 8 then pic1_data else pic2_data in
    let line = if ltb irq_line 8 then irq_line else irq_line - 8 in
    do value ← inb hardware port; outb port (u8 (bit_and value (not32 (2 ^ line))))

unfoldable pub get_irr : Hardware → Io ℕ
unfolding get_irq_reg
get_irr hardware = get_irq_reg hardware pic_read_irr

unfoldable pub get_isr : Hardware → Io ℕ
unfolding get_irq_reg
get_isr hardware = get_irq_reg hardware pic_read_isr
