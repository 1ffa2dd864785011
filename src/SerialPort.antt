-- ===== src/SerialPort.antt =====
-- src/SerialPort/SerialPort.cc and include/SerialPort/SerialPort.h, as programs over the ports. The
-- polling loop has fuel, and its `none` means that the fuel ran out.
pub mod Uart
pub mod Sending
pub mod Logging
mod Tests
use cosmo.PortIo.{Hardware, History, Io, pure, ◌>>=◌, ◌>>◌, outb, inb}
use cosmo.Prelude.{
  ℕ, zero, suc, ◌+◌, ◌-◌, ◌/◌, ◌^◌, ◌==◌, if◌then◌else◌, Bool, true, false, not, Option, none, some,
  List, [], ◌∷◌, ℤ, pos, negsuc, bit_and, u8, u16,
}

pub data ComPort : Type 0 where
  undefined_port com1 com2 com3 com4 : ComPort

-- A port as the `uint16_t` that `outb` and `inb` take. The undefined one is -1.
abbrev pub address : ComPort → ℕ
address undefined_port = 2 ^ 16 - 1
address com1 = 0x3F8
address com2 = 0x2F8
address com3 = 0x3E8
address com4 = 0x2E8

pub data BaudRate : Type 0 where
  undefined_baud b1200 b2400 b4800 b9600 b19200 b38400 b57600 b115200 : BaudRate

-- The divisor of a rate. The undefined one is -1 on 32 bits.
abbrev pub divisor : BaudRate → ℕ
divisor undefined_baud = 2 ^ 32 - 1
divisor b1200 = 96
divisor b2400 = 48
divisor b4800 = 24
divisor b9600 = 12
divisor b19200 = 6
divisor b38400 = 3
divisor b57600 = 2
divisor b115200 = 1

pub record SerialPort : Type 0 where
  pub port : ComPort
  pub baud : BaudRate
  pub initialized : Bool

pub construct : SerialPort
construct = record { port = undefined_port; baud = undefined_baud; initialized = false }

-- `PortOffset`.
abbrev pub interrupt_enable_offset : ℕ
interrupt_enable_offset = 1

abbrev pub fifo_port_offset : ℕ
fifo_port_offset = 2

abbrev pub line_command_offset : ℕ
line_command_offset = 3

abbrev pub modem_command_offset : ℕ
modem_command_offset = 4

abbrev pub line_status_offset : ℕ
line_status_offset = 5

-- `Init` up to the test of the byte that comes back.
unfoldable pub configure : Hardware → ℕ → ℕ → Io ℕ
configure hardware base_port baud = do
  outb (base_port + interrupt_enable_offset) 0x00
  outb (base_port + line_command_offset) 0x80
  outb base_port (bit_and baud 0xFF)
  outb (base_port + interrupt_enable_offset) (bit_and (baud / 2 ^ 8) 0xFF)
  outb (base_port + line_command_offset) 0x03
  outb (base_port + fifo_port_offset) 0xC7
  outb (base_port + modem_command_offset) 0x03
  outb (base_port + modem_command_offset) 0x1E
  outb base_port 0xAE
  inb hardware base_port

-- `Init`, with its result and the object.
unfoldable pub init : Hardware → ComPort → BaudRate → SerialPort → Io (Bool × SerialPort)
unfolding configure
init hardware com_port baud s = do
  back ← configure hardware (address com_port) (divisor baud)
  if not (back == 0xAE)
      then pure (false, s)
      else (outb (address com_port + modem_command_offset) 0x0F
          >> pure (true, record { port = com_port; baud = baud; initialized = true }))

pub active_port : SerialPort → Bool
active_port s = s.initialized

-- `TransmitBufferEmpty`.
abbrev pub transmit_buffer_empty : Hardware → SerialPort → Io Bool
transmit_buffer_empty hardware s = do
  status ← inb hardware (address s.port + line_status_offset)
  pure (not (bit_and status 0x20 == 0))

-- The polling loop and the output behind it.
pub send : Hardware → SerialPort → ℕ → ℕ → History → Option History
send hardware s c zero h = none
send hardware s c (suc fuel) h =
    let (empty, h') = transmit_buffer_empty hardware s h in
    let rest = send hardware s c fuel h' in
    if empty then some ((outb (address s.port) c h').1) else rest

unfoldable pub print_char : Hardware → SerialPort → ℕ → ℕ → History → Option History
unfolding send
print_char hardware s fuel c h = if not s.initialized then some h else send hardware s c fuel h

-- `PrintString` on the `len` characters at `str`; `none` is the null pointer. Each character has the
-- fuel for its polls.
pub print_chars : Hardware → SerialPort → ℕ → List ℕ → History → Option History
unfolding print_char
print_chars hardware s fuel [] h = some h
print_chars hardware s fuel (c ∷ cs) h = elim (print_char hardware s fuel c h) [
  | none ↦ none
  | some h' ↦ print_chars hardware s fuel cs h'
]

pub print_string : Hardware → SerialPort → ℕ → Option (List ℕ) → History → Option History
unfolding print_chars
print_string hardware s fuel none h = some h
print_string hardware s fuel (some str) h =
    if not s.initialized then some h else print_chars hardware s fuel str h
