-- ===== src/SerialPort/Logging.antt =====
-- The port as a writer of the logger, and the bytes that it is sent. A state of the writer is the
-- history of the ports, or `none` when the fuel of a poll ran out.
use mathlib.Core.List.{append_assoc, append-nil}
use cosmo.Logger.Format.{Arg, Writer, each, LogLevel, prefix, log}
use cosmo.Logger.Format.Print.{IsArg, text}
use cosmo.Logger.Format.Whole.{log-Prints}
use cosmo.Memory.{Memory}
use cosmo.PortIo.{wrote, got, History, Hardware}
use cosmo.Prelude.{
  ℕ, zero, suc, ◌+◌, ◌<◌, ◌≡◌, ◌==◌, refl, sym, ap, ◌∙◌, arith, if◌then◌else◌, Bool, true, false,
  not, Option, none, some, List, [], ◌∷◌, ◌++◌, map, All, bit_and, u8, u16,
}
use cosmo.SerialPort.{SerialPort, address, print_char, print_chars, print_string}
use cosmo.SerialPort.Sending.{status, polls, print_char-sends}

if_closed :
    (b : Bool) (x y z : Option History) → (b ≡ false → x ≡ z) → y ≡ z → (if not b then x else y) ≡ z
if_closed true x y z e f = f
if_closed false x y z e f = e refl

module _ (hardware : Hardware) (s : SerialPort) (fuel : ℕ) where
  abbrev pub put : ℕ → Option History → Option History
  put c none = none
  put c (some h) = print_char hardware s fuel c h

  abbrev pub put_string : List ℕ → Option History → Option History
  put_string str none = none
  put_string str (some h) = print_string hardware s fuel (some str) h

  each-none : (str : List ℕ) → each put str none ≡ none
  unfolding each
  each-none [] = refl
  each-none (c ∷ cs) = each-none cs

  after_char :
      (cs : List ℕ) (first : Option History)
      → ((h : History) → print_chars hardware s fuel cs h ≡ each put cs (some h))
      → elim first [ none ↦ none | some h ↦ print_chars hardware s fuel cs h ] ≡ each put cs first
  after_char cs none k = sym (each-none cs)
  after_char cs (some h) k = k h

  print_chars-each :
      (str : List ℕ) (h : History) → print_chars hardware s fuel str h ≡ each put str (some h)
  unfolding print_chars each
  print_chars-each [] h = refl
  print_chars-each (c ∷ cs) h = after_char cs (print_char hardware s fuel c h) (print_chars-each cs)

  -- A port that is not initialized takes the characters and sends none.
  closed-each :
      (str : List ℕ) (h : History) → s.initialized ≡ false → each put str (some h) ≡ some h
  unfolding print_char each
  closed-each [] h e = refl
  closed-each (c ∷ cs) h e = rw e (closed-each cs h e)

  put_string-each : (str : List ℕ) (w : Option History) → put_string str w ≡ each put str w
  unfolding print_string
  put_string-each str none = sym (each-none str)
  put_string-each str (some h) =
      if_closed s.initialized (some h) (print_chars hardware s fuel str h) (each put str (some h))
        (λ e. sym (closed-each str h e)) (print_chars-each str h)

  pub serial-Writer : Writer (Option History)
  serial-Writer = record {
    print_char = put;
    print_string = put_string;
    print_string-each = put_string-each;
  }

-- The bytes sent to a port, the earliest first.
pub sent : ℕ → History → List ℕ
sent port [] = []
sent port (got p v ∷ h) = sent port h
sent port (wrote p v ∷ h) = if p == port then sent port h ++ (v ∷ []) else sent port h

module _ (hardware : Hardware) (s : SerialPort) (fuel : ℕ) where
  -- Whatever was sent before, the transmit buffer is empty after fewer polls than there is fuel.
  pub record IsServed : Type 0 where
    pub waits : History → ℕ
    pub less : (h : History) → waits h < fuel
    pub busy :
        (h : History) (k : ℕ)
        → k < waits h
        → (bit_and (status hardware s (polls hardware s k h)) 0x20 == 0) ≡ true
    pub free :
        (h : History)
        → (bit_and (status hardware s (polls hardware s (waits h) h)) 0x20 == 0) ≡ false

  -- The port was sent the bytes, and nothing else, after `h`.
  pub record Sends (bytes : List ℕ) (h : History) (result : Option History) : Type 0 where
    pub after : History
    pub returns : result ≡ some after
    pub same : sent (u16 (address s.port)) after ≡ sent (u16 (address s.port)) h ++ bytes

  sent-polls :
      (n : ℕ) (h : History)
      → sent (u16 (address s.port)) (polls hardware s n h) ≡ sent (u16 (address s.port)) h
  unfolding sent
  sent-polls zero h = refl
  sent-polls (suc n) h = sent-polls n (got (u16 (address s.port + 5)) (status hardware s h) ∷ h)

  put-Sends :
      (c : ℕ) (h : History)
      → s.initialized ≡ true
      → IsServed
      → Sends (u8 c ∷ []) h (put hardware s fuel c (some h))
  unfolding sent
  put-Sends c h i f = record {
    after = wrote (u16 (address s.port)) (u8 c) ∷ polls hardware s (suc (f.waits h)) h;
    returns = print_char-sends hardware s (f.waits h) fuel c h i (f.less h) (f.busy h) (f.free h);
    same =
        let itself : (u16 (address s.port) == u16 (address s.port)) ≡ true = ground arith in
        rw itself (ap (λ x. x ++ (u8 c ∷ [])) (sent-polls (suc (f.waits h)) h));
  }

  each-Sends :
      (str : List ℕ) (h : History)
      → s.initialized ≡ true
      → IsServed
      → Sends (map u8 str) h (each (put hardware s fuel) str (some h))
  unfolding each
  each-Sends [] h i f = record { after = h; returns = refl; same = sym (append-nil _) }
  each-Sends (c ∷ cs) h i f =
      let p = put-Sends c h i f in
      let q = each-Sends cs p.after i f in
      record {
        after = q.after;
        returns = ap (each (put hardware s fuel) cs) p.returns ∙ q.returns;
        same = q.same ∙ ap (λ x. x ++ map u8 cs) p.same ∙ append_assoc _ (u8 c ∷ []) (map u8 cs);
      }

  -- On an initialized port whose transmit buffer is always empty after fewer polls than there is
  -- fuel, `Log` with arguments of their C types, whose strings fit an `Arg`, ends, wherever the text of
  -- the format is defined. The
  -- port was sent the level's prefix and then that text, in this order, and nothing else.
  pub log-Sends :
      (level : LogLevel) (fmt : List ℕ) (args : List Arg) (t : List ℕ) (m : Memory) (h : History)
      → s.initialized ≡ true
      → IsServed
      → All IsArg args
      → text fmt args ≡ some t
      → (m' : Memory) × (w : Option History) × (log
            (serial-Writer hardware s fuel)
            level
            fmt
            args
            m
            (some h)
          ≡ some (m', w))
        × Sends (map u8 (prefix level ++ t)) h w
  unfolding serial-Writer
  log-Sends level fmt args t m h i f a e =
      let writer = serial-Writer hardware s fuel in
      let p = log-Prints writer level fmt args t m (some h) a e in
      (p.log_buffer, _, p.returns, each-Sends (prefix level ++ t) h i f)
