-- ===== src/Idt.antt =====
-- src/InterruptDescriptorTable/InterruptDescriptorTable.cc and its header. The addresses of the
-- assembly entry points `isr0` to `isr31` and `irq0` to `irq15` are parameters, as is what the
-- object's memory holds before the constructor runs. `FlushIdt` is a call of the assembly routine in
-- Flush.
pub mod Gates
pub mod Flush
pub mod Lines
mod Tests
use cosmo.Prelude.{
  ℕ, zero, suc, ◌+◌, ◌*◌, ◌-◌, ◌/◌, ◌^◌, ◌==◌, if◌then◌else◌, Bool, true, false, bit_and, leb, ltb,
  ◌&&◌, u16, u32,
}

pub record IdtEntry : Type 0 where
  pub isr_low : ℕ
  pub cs : ℕ
  pub reserved : ℕ
  pub attributes : ℕ
  pub isr_high : ℕ

pub record IdtRegister : Type 0 where
  pub limit : ℕ
  pub base : ℕ

pub record InterruptDescriptorTable : Type 0 where
  pub idtr : IdtRegister
  pub idt_entries : ℕ → IdtEntry
  pub enabled_vectors : ℕ → Bool

-- `kMaxIdtEntries`.
abbrev pub max_idt_entries : ℕ
max_idt_entries = 256

-- `sizeof(IdtEntry)`, packed.
abbrev sizeof_entry : ℕ
sizeof_entry = 2 + 2 + 1 + 1 + 2

pub is_enabled : InterruptDescriptorTable → ℕ → Bool
is_enabled idt vector = idt.enabled_vectors vector

-- The default arguments of `SetGate`.
abbrev pub default_selector : ℕ
default_selector = 0x08

abbrev pub default_flags : ℕ
default_flags = 0x8E

-- The entry that `SetGate` writes.
abbrev pub gate : ℕ → ℕ → ℕ → IdtEntry
gate isr selector flags = record {
  isr_low = u16 (bit_and isr 0xFFFF);
  cs = selector;
  reserved = 0;
  attributes = flags;
  isr_high = u16 (isr / 2 ^ 16);
}

pub set_gate : ℕ → ℕ → ℕ → ℕ → InterruptDescriptorTable → InterruptDescriptorTable
set_gate vector isr selector flags idt = record idt {
  idt_entries = λ k. if k == vector then gate isr selector flags else idt.idt_entries k;
  enabled_vectors = λ k. if k == vector then true else idt.enabled_vectors k;
}

-- The constructor's row of `SetGate` calls for `left` handlers, which the source writes out: the
-- handler `i` goes to the vector `first + i`.
pub set_gates : ℕ → (ℕ → ℕ) → ℕ → ℕ → InterruptDescriptorTable → InterruptDescriptorTable
set_gates first handler i zero idt = idt
set_gates first handler i (suc left) idt =
    set_gates first handler (i + 1) left
      (set_gate (first + i) (u32 (handler i)) default_selector default_flags idt)

-- What `memset` leaves of an entry.
abbrev pub zero_entry : IdtEntry
zero_entry = record { isr_low = 0; cs = 0; reserved = 0; attributes = 0; isr_high = 0 }

-- The last loop of the constructor, at index `i`.
pub disable : ℕ → ℕ → (ℕ → Bool) → ℕ → Bool
disable i zero enabled = enabled
disable i (suc left) enabled = disable (i + 1) left (λ k. if k == i then false else enabled k)

pub construct : (ℕ → ℕ) → (ℕ → ℕ) → ℕ → InterruptDescriptorTable → InterruptDescriptorTable
construct isr irq address memory =
    let cleared = record memory {
      idtr = record { base = u32 address; limit = u16 (sizeof_entry * max_idt_entries - 1) };
      idt_entries = λ k. if ltb k max_idt_entries then zero_entry else memory.idt_entries k;
    } in
    let idt = set_gates 32 irq 0 16 (set_gates 0 isr 0 32 cleared) in
    record idt { enabled_vectors = disable 48 (max_idt_entries - 48) idt.enabled_vectors }
