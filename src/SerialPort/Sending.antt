-- ===== src/SerialPort/Sending.antt =====
-- The polls of `PrintChar`.
use cosmo.PortIo.{wrote, got, History, Hardware}
use cosmo.Prelude.{
  ℕ, zero, suc, ◌+◌, ◌<◌, ◌≡◌, ◌==◌, refl, arith, true, false, some, ◌∷◌, bit_and, u8, u16,
}
use cosmo.SerialPort.{SerialPort, address, send, print_char}

module _ (hardware : Hardware) (s : SerialPort) where
  -- The status that a poll reads, and the history after a number of polls.
  abbrev pub status : History → ℕ
  status h = u8 (hardware h (u16 (address s.port + 5)))

  abbrev pub polls : ℕ → History → History
  polls zero h = h
  polls (suc n) h = polls n (got (u16 (address s.port + 5)) (status h) ∷ h)

  send_lem :
      (n fuel c : ℕ) (h : History)
      → n < fuel
      → ((k : ℕ) → k < n → (bit_and (status (polls k h)) 0x20 == 0) ≡ true)
      → (bit_and (status (polls n h)) 0x20 == 0) ≡ false
      → send hardware s c fuel h ≡ some (wrote (u16 (address s.port)) (u8 c) ∷ polls (suc n) h)
  unfolding send
  send_lem n zero c h l busy free = absurd (omega arith)
  send_lem zero (suc fuel) c h l busy free = rw free refl
  send_lem (suc n) (suc fuel) c h l busy free =
      rw (busy 0 (omega arith))
        (send_lem n fuel c (polls 1 h) (omega arith) (λ k p. busy (suc k) (omega arith)) free)

  -- Where the transmit buffer of an initialized port is full for the first `n` polls and then empty,
  -- and the fuel is more than `n`, `PrintChar` ends after `n + 1` polls, and sends the character once.
  pub print_char-sends :
      (n fuel c : ℕ) (h : History)
      → s.initialized ≡ true
      → n < fuel
      → ((k : ℕ) → k < n → (bit_and (status (polls k h)) 0x20 == 0) ≡ true)
      → (bit_and (status (polls n h)) 0x20 == 0) ≡ false
      → print_char hardware s fuel c h
        ≡ some (wrote (u16 (address s.port)) (u8 c) ∷ polls (suc n) h)
  unfolding print_char
  print_char-sends n fuel c h i l busy free = rw i (send_lem n fuel c h l busy free)
