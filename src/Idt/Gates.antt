-- ===== src/Idt/Gates.antt =====
-- The gates after the constructor, and what the processor makes of them.
use cosmo.Bits.{bit_and_low}
use cosmo.Idt.{
  IdtEntry, InterruptDescriptorTable, construct, gate, set_gate, set_gates, disable, zero_entry,
  is_enabled,
}
use cosmo.Prelude.{
  ℕ, zero, suc, ◌+◌, ◌*◌, ◌-◌, ◌/◌, ◌^◌, ◌<◌, ◌≤◌, ◌≡◌, ◌∙◌, refl, arith, bit_and, u16, u32, ◌==◌,
  ltb, leb, ◌&&◌, Bool, true, false, if◌then◌else◌,
}

-- The address that the processor jumps to.
abbrev pub target : IdtEntry → ℕ
target e = e.isr_high * 2 ^ 16 + e.isr_low

-- The entry is a present 32-bit interrupt gate of the kernel's code segment, to `address`.
pub record IsGateTo (address : ℕ) (e : IdtEntry) : Type 0 where
  pub to : target e ≡ address
  pub selector : e.cs ≡ 0x08
  pub attributes : e.attributes ≡ 0x8E
  pub reserved : e.reserved ≡ 0

split_address : (a : ℕ) → a < 2 ^ 32 → u16 (a / 2 ^ 16) * 2 ^ 16 + u16 (bit_and a 0xFFFF) ≡ a
split_address a l = omega (arith, bit_and_low 16 a)

disable_lem :
    (i left k : ℕ) (enabled : ℕ → Bool)
    → disable i left enabled k ≡ (if leb i k && ltb k (i + left) then false else enabled k)
unfolding disable
disable_lem i zero k enabled = ground arith
disable_lem i (suc left) k enabled =
    ground (arith, disable_lem (i + 1) left k (λ j. if j == i then false else enabled j))

-- A row of gates leaves the vectors outside of it as they are.
set_gates_lem :
    (first : ℕ) (handler : ℕ → ℕ) (i left k : ℕ) (idt : InterruptDescriptorTable)
    → let g = set_gates first handler i left idt in
      let inside = leb (first + i) k && ltb k (first + i + left) in
      (g.idt_entries k
        ≡ (if inside then gate (u32 (handler (k - first))) 0x08 0x8E else idt.idt_entries k))
      × (g.enabled_vectors k ≡ (if inside then true else idt.enabled_vectors k))
unfolding set_gates set_gate
set_gates_lem first handler i zero k idt = (ground arith, ground arith)
set_gates_lem first handler i (suc left) k idt =
    let rest =
      set_gates_lem first handler (i + 1) left k
        (set_gate (first + i) (u32 (handler i)) 0x08 0x8E idt) in
    (ground (arith, rest), ground (arith, rest))

-- The entry point for a vector of the first 48: an exception's or an interrupt line's.
abbrev pub entry_point : (ℕ → ℕ) → (ℕ → ℕ) → ℕ → ℕ
entry_point isr irq k = if ltb k 32 then isr k else irq (k - 32)

gate-IsGateTo : (a : ℕ) → a < 2 ^ 32 → IsGateTo a (gate a 0x08 0x8E)
gate-IsGateTo a l = record {
  to = split_address a l;
  selector = refl;
  attributes = refl;
  reserved = refl;
}

-- After the constructor exactly the vectors below 48 are enabled. Each of those, with an entry
-- point of 32 bits, is a gate to it. The others are zero.
pub construct-gates :
    (isr irq : ℕ → ℕ) (address k : ℕ) (memory : InterruptDescriptorTable)
    → k < 256
    → entry_point isr irq k < 2 ^ 32
    → let g = construct isr irq address memory in
      (is_enabled g k ≡ ltb k 48)
      × (k < 48 → IsGateTo (entry_point isr irq k) (g.idt_entries k))
      × (48 ≤ k → g.idt_entries k ≡ zero_entry)
unfolding construct is_enabled
construct-gates isr irq address k memory l a =
    let cleared = record memory {
      idtr = record { base = u32 address; limit = 2047 };
      idt_entries = λ k. if ltb k 256 then zero_entry else memory.idt_entries k;
    } in
    let exceptions = set_gates_lem 0 isr 0 32 k cleared in
    let lines = set_gates_lem 32 irq 0 16 k (set_gates 0 isr 0 32 cleared) in
    (
      ground (
        arith,
        exceptions,
        lines,
        disable_lem 48 208 k (set_gates 32 irq 0 16 (set_gates 0 isr 0 32 cleared)).enabled_vectors,
      ),
      λ p.
          let point : u32 (entry_point isr irq k) ≡ entry_point isr irq k = omega arith in
          let entry : (construct isr irq address memory).idt_entries k
              ≡ gate (entry_point isr irq k) 0x08 0x8E =
            ground (arith, exceptions, lines) in
          rw entry (gate-IsGateTo (entry_point isr irq k) a),
      λ p. ground (arith, exceptions, lines),
    )

-- The gates do not touch the register.
set_gates-idtr :
    (first : ℕ) (handler : ℕ → ℕ) (i left : ℕ) (idt : InterruptDescriptorTable)
    → (set_gates first handler i left idt).idtr ≡ idt.idtr
unfolding set_gates set_gate
set_gates-idtr first handler i zero idt = refl
set_gates-idtr first handler i (suc left) idt =
    set_gates-idtr first handler (i + 1) left (set_gate (first + i) (u32 (handler i)) 0x08 0x8E idt)

pub construct-idtr :
    (isr irq : ℕ → ℕ) (address : ℕ) (memory : InterruptDescriptorTable)
    → (construct isr irq address memory).idtr ≡ record { limit = 2047; base = u32 address }
unfolding construct
construct-idtr isr irq address memory =
    let cleared = record memory {
      idtr = record { base = u32 address; limit = 2047 };
      idt_entries = λ k. if ltb k 256 then zero_entry else memory.idt_entries k;
    } in
    set_gates-idtr 32 irq 0 16 (set_gates 0 isr 0 32 cleared) ∙ set_gates-idtr 0 isr 0 32 cleared
