-- ===== src/SerialPort/Tests.antt =====
-- COM1 with a UART that returns the test byte and whose buffer is empty from the fourth event on,
-- and the theorems there.
use cosmo.Logger.Format.{of_unsigned, get_unsigned, next_arg, log, prefix, warn}
use cosmo.Logger.Format.Print.{text}
use cosmo.Logger.Numeral.{numeral}
use cosmo.Memory.{Memory}
use cosmo.PortIo.{Hardware, History}
use cosmo.Prelude.{
  ℕ, zero, suc, bit_and, ◌<◌, ◌≡◌, ◌≢◌, ◌==◌, ltb, if◌then◌else◌, refl, arith, true, false, some,
  [], ◌∷◌, length, List, Option, map, u8, ◌++◌,
}
use cosmo.SerialPort.{SerialPort, com1, b9600, undefined_baud, construct, configure, init}
use cosmo.SerialPort.Logging.{serial-Writer, IsServed, Sends, log-Sends}
use cosmo.SerialPort.Sending.{status, polls}
use cosmo.SerialPort.Uart.{Uart, uart, IsConfigured, init-IsConfigured}

abbrev ports : Hardware
ports h port = if port == 0x3FD then (if ltb (length h) 3 then 0 else 0x20) else 0xAE

abbrev registers : Uart
registers = record {
  line = 0;
  divisor_low = 0;
  divisor_high = 0;
  interrupts = 0;
  fifo = 0;
  modem = 0;
}

abbrev opened : SerialPort
opened = record { port = com1; baud = b9600; initialized = true }

busy : (k : ℕ) → k < 3 → (bit_and (status ports opened (polls ports opened k [])) 0x20 == 0) ≡ true
busy zero l = refl
busy (suc zero) l = refl
busy (suc (suc zero)) l = refl
busy (suc (suc (suc k))) l = absurd (omega arith)

b9600_defined : b9600 ≢ undefined_baud
b9600_defined e = absurd (cc e)

init-IsConfigured_example :
    let (result, after) = init ports com1 b9600 construct [] in
    let back = (configure ports 0x3F8 12 []).0 in
    IsConfigured 9600 (if back == 0xAE then 0 else 1) (uart 0x3F8 registers after)
    × (result ≡ (if back == 0xAE then (true, opened) else (false, construct)))
unfolding uart
init-IsConfigured_example =
    init-IsConfigured registers ports com1 b9600 construct [] (omega arith) b9600_defined
      (omega arith)

-- A line status whose transmit buffer is always empty.
abbrev idle : Hardware
idle h port = 0x20

idle-IsServed : IsServed idle opened 1
idle-IsServed = record {
  waits = λ h. 0;
  less = λ h. omega arith;
  busy = λ h k l. absurd (omega arith);
  free = λ h. refl;
}

abbrev format : List ℕ
format = b'%' ∷ b'u' ∷ b'\n' ∷ []

seven : text format (of_unsigned 7 ∷ []) ≡ some (b'7' ∷ b'\n' ∷ [])
unfolding get_unsigned next_arg numeral
seven = refl

log-Sends_example :
    (m' : Memory) × (w : Option History) × (log
        (serial-Writer idle opened 1)
        warn
        format
        (of_unsigned 7 ∷ [])
        (λ a. 0)
        (some [])
      ≡ some (m', w))
    × Sends idle opened 1 (map u8 (prefix warn ++ (b'7' ∷ b'\n' ∷ []))) [] w
log-Sends_example =
    log-Sends idle opened 1 warn format (of_unsigned 7 ∷ []) (b'7' ∷ b'\n' ∷ []) (λ a. 0) [] refl
      idle-IsServed (omega arith, tt) seven
