-- ===== src/SerialPort/Uart.antt =====
-- The registers of a 16550 UART at a port, as its data sheet describes them, and what `Init` leaves
-- in them.
use cosmo.Bits.{bit_and_low, test_bit}
use cosmo.PortIo.{wrote, got, History, Hardware}
use cosmo.Prelude.{
  ℕ, ◌+◌, ◌*◌, ◌/◌, ◌^◌, ◌<◌, ◌≡◌, ◌≢◌, ◌==◌, refl, arith, leb, if◌then◌else◌, true, false, [], ◌∷◌,
  u8, u16, bit_and, Bool-cases, inl, inr,
}
use cosmo.SerialPort.{
  SerialPort, ComPort, undefined_port, com1, com2, com3, com4, address, BaudRate, undefined_baud,
  b1200, b2400, b4800, b9600, b19200, b38400, b57600, b115200, divisor, configure, init,
}

pub record Uart : Type 0 where
  pub line : ℕ
  pub divisor_low : ℕ
  pub divisor_high : ℕ
  pub interrupts : ℕ
  pub fifo : ℕ
  pub modem : ℕ

-- The highest bit of the line register puts the divisor behind the first two ports.
unfoldable pub uart : ℕ → Uart → History → Uart
uart base_port start [] = start
uart base_port start (got port v ∷ h) = uart base_port start h
uart base_port start (wrote port v ∷ h) =
    let u = uart base_port start h in
    if port == base_port
    then (if leb 0x80 u.line then record u { divisor_low = v } else u)
    else if port == base_port + 1
    then (if leb 0x80 u.line then record u { divisor_high = v } else record u { interrupts = v })
    else if port == base_port + 2
    then record u { fifo = v }
    else if port == base_port + 3
    then record u { line = v }
    else if port == base_port + 4
    then record u { modem = v }
    else u

-- The bits of a second that a rate means. The UART's clock counts 115200 steps in a second, and the
-- divisor says how many a bit takes.
abbrev pub bits_per_second : BaudRate → ℕ
bits_per_second undefined_baud = 0
bits_per_second b1200 = 1200
bits_per_second b2400 = 2400
bits_per_second b4800 = 4800
bits_per_second b9600 = 9600
bits_per_second b19200 = 19200
bits_per_second b38400 = 38400
bits_per_second b57600 = 57600
bits_per_second b115200 = 115200

divisor_fits : (baud : BaudRate) → baud ≢ undefined_baud → divisor baud < 2 ^ 16
divisor_fits undefined_baud h = absurd (h refl)
divisor_fits b1200 h = omega arith
divisor_fits b2400 h = omega arith
divisor_fits b4800 h = omega arith
divisor_fits b9600 h = omega arith
divisor_fits b19200 h = omega arith
divisor_fits b38400 h = omega arith
divisor_fits b57600 h = omega arith
divisor_fits b115200 h = omega arith

divisor_rate :
    (baud : BaudRate) → baud ≢ undefined_baud → divisor baud * bits_per_second baud ≡ 115200
divisor_rate undefined_baud h = absurd (h refl)
divisor_rate b1200 h = refl
divisor_rate b2400 h = refl
divisor_rate b4800 h = refl
divisor_rate b9600 h = refl
divisor_rate b19200 h = refl
divisor_rate b38400 h = refl
divisor_rate b57600 h = refl
divisor_rate b115200 h = refl

-- What the line register, the divisor, the interrupts and the buffers are set to, and the modem
-- register.
record IsProgrammed (baud control : ℕ) (u : Uart) : Type 0 where
  line : u.line ≡ 0x03
  divisor : u.divisor_high * 2 ^ 8 + u.divisor_low ≡ baud
  interrupts : u.interrupts ≡ 0
  fifo : u.fifo ≡ 0xC7
  modem : u.modem ≡ control

-- The two bytes of the divisor.
halves :
    (baud : ℕ)
    → baud < 2 ^ 16
    → u8 (bit_and (baud / 2 ^ 8) 0xFF) * 2 ^ 8 + u8 (bit_and baud 0xFF) ≡ baud
halves baud l = omega (arith, bit_and_low 8 baud, bit_and_low 8 (baud / 2 ^ 8))

-- A port with a UART.
abbrev pub IsPort : ComPort → Type 0
IsPort com_port = address com_port < 2 ^ 15

-- The UART's second port is that of the interrupts, not the divisor's.
abbrev pub IsSelected : Uart → Type 0
IsSelected u = u.line < 0x80

configure-IsProgrammed :
    (start : Uart) (hardware : Hardware) (com_port : ComPort) (baud : ℕ) (h : History)
    → IsPort com_port
    → baud < 2 ^ 16
    → IsSelected (uart (address com_port) start h)
    → IsProgrammed baud 0x1E
        (uart (address com_port) start (configure hardware (address com_port) baud h).1)
unfolding configure uart
configure-IsProgrammed start hardware undefined_port baud h p l s = absurd (omega arith)
configure-IsProgrammed start hardware com1 baud h p l s =
    let off : leb 0x80 (uart (address com1) start h).line ≡ false = ground arith in
    record {
      line = refl;
      divisor = halves baud l;
      interrupts = rw off refl;
      fifo = refl;
      modem = refl;
    }
configure-IsProgrammed start hardware com2 baud h p l s =
    let off : leb 0x80 (uart (address com2) start h).line ≡ false = ground arith in
    record {
      line = refl;
      divisor = halves baud l;
      interrupts = rw off refl;
      fifo = refl;
      modem = refl;
    }
configure-IsProgrammed start hardware com3 baud h p l s =
    let off : leb 0x80 (uart (address com3) start h).line ≡ false = ground arith in
    record {
      line = refl;
      divisor = halves baud l;
      interrupts = rw off refl;
      fifo = refl;
      modem = refl;
    }
configure-IsProgrammed start hardware com4 baud h p l s =
    let off : leb 0x80 (uart (address com4) start h).line ≡ false = ground arith in
    record {
      line = refl;
      divisor = halves baud l;
      interrupts = rw off refl;
      fifo = refl;
      modem = refl;
    }

-- The last write goes to the modem register alone.
modem-IsProgrammed :
    (start : Uart) (com_port : ComPort) (baud old v : ℕ) (h : History)
    → IsPort com_port
    → IsProgrammed baud old (uart (address com_port) start h)
    → IsProgrammed baud v (uart (address com_port) start (wrote (u16 (address com_port + 4)) v ∷ h))
unfolding uart
modem-IsProgrammed start undefined_port baud old v h p c = absurd (omega arith)
modem-IsProgrammed start com1 baud old v h p c = record {
  line = c.line;
  divisor = c.divisor;
  interrupts = c.interrupts;
  fifo = c.fifo;
  modem = refl;
}
modem-IsProgrammed start com2 baud old v h p c = record {
  line = c.line;
  divisor = c.divisor;
  interrupts = c.interrupts;
  fifo = c.fifo;
  modem = refl;
}
modem-IsProgrammed start com3 baud old v h p c = record {
  line = c.line;
  divisor = c.divisor;
  interrupts = c.interrupts;
  fifo = c.fifo;
  modem = refl;
}
modem-IsProgrammed start com4 baud old v h p c = record {
  line = c.line;
  divisor = c.divisor;
  interrupts = c.interrupts;
  fifo = c.fifo;
  modem = refl;
}

-- The UART sends eight bits without parity and with one stop bit, at `per_second` bits per second, with
-- its interrupts off. In loopback it receives what it sends.
pub record IsConfigured (per_second looped : ℕ) (u : Uart) : Type 0 where
  pub line : u.line ≡ 0x03
  pub rate : (u.divisor_high * 2 ^ 8 + u.divisor_low) * per_second ≡ 115200
  pub interrupts : u.interrupts ≡ 0
  pub fifo : u.fifo ≡ 0xC7
  pub loopback : test_bit u.modem 4 ≡ looped

IsProgrammed-IsConfigured :
    {u : Uart} (baud : BaudRate) (modem loopback : ℕ)
    → baud ≢ undefined_baud
    → test_bit modem 4 ≡ loopback
    → IsProgrammed (divisor baud) modem u
    → IsConfigured (bits_per_second baud) loopback u
IsProgrammed-IsConfigured baud modem loopback b t s = record {
  line = s.line;
  rate = rw s.divisor (divisor_rate baud b);
  interrupts = s.interrupts;
  fifo = s.fifo;
  loopback = rw s.modem t;
}

-- After `Init` on a port with a UART and a defined rate, where the divisor's latch was not selected
-- before, the UART is set to eight bits without parity and with one stop bit, at that rate, with its
-- interrupts off. If the byte of the test came back, the UART is not in loopback any more, the
-- result is true, and the object holds the port and the rate, and is initialized. Else it is still
-- in loopback, the result is false, and the object is as it was.
pub init-IsConfigured :
    (start : Uart) (hardware : Hardware) (com_port : ComPort) (baud : BaudRate) (s : SerialPort)
    (h : History)
    → IsPort com_port
    → baud ≢ undefined_baud
    → IsSelected (uart (address com_port) start h)
    → let (result, after) = init hardware com_port baud s h in
      let back = (configure hardware (address com_port) (divisor baud) h).0 in
      IsConfigured
        (bits_per_second baud)
        (if back == 0xAE then 0 else 1)
        (uart (address com_port) start after)
      × (result ≡ (
          if back == 0xAE
          then (true, record { port = com_port; baud = baud; initialized = true })
          else (false, s)))
unfolding init uart test_bit
init-IsConfigured start hardware com_port baud s h p b l =
    let run = configure hardware (address com_port) (divisor baud) h in
    let set =
      configure-IsProgrammed start hardware com_port (divisor baud) h p (divisor_fits baud b) l in
    elim (Bool-cases (run.0 == 0xAE)) [
      | inl e ↦ rw e (
        IsProgrammed-IsConfigured baud 0x0F 0 b refl
            (modem-IsProgrammed start com_port (divisor baud) 0x1E 0x0F run.1 p set),
        refl,
      )
      | inr e ↦ rw e (IsProgrammed-IsConfigured baud 0x1E 1 b refl set, refl)
    ]
