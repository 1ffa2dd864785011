-- ===== src/Gdt.antt =====
-- include/GlobalDescriptorTable/GlobalDescriptorTable.h: the class template. The table is a
-- function of the index; the array's length `n` and its address are the constructor's parameters.
-- `FlushGdt` is a call of the assembly routine in Flush.
pub mod Segment
pub mod Flush
mod Tests
use cosmo.Prelude.{
  ℕ, ◌+◌, ◌*◌, ◌-◌, ◌/◌, ◌^◌, ◌==◌, if◌then◌else◌, bit_and, bit_or, u8, u16, u32, sub32,
}

pub record GdtEntry : Type 0 where
  pub limit_low : ℕ
  pub base_low : ℕ
  pub base_middle : ℕ
  pub access : ℕ
  pub granularity : ℕ
  pub base_high : ℕ

pub record GdtRegister : Type 0 where
  pub limit : ℕ
  pub base : ℕ

pub record GlobalDescriptorTable : Type 0 where
  pub gdtr : GdtRegister
  pub gdt_entries : ℕ → GdtEntry

-- `sizeof(GdtEntry)`, packed.
abbrev sizeof_entry : ℕ
sizeof_entry = 2 + 2 + 1 + 1 + 1 + 1

-- The constructor for `n` entries at `address`, which leaves the entries as they are.
unfoldable pub construct : ℕ → ℕ → (ℕ → GdtEntry) → GlobalDescriptorTable
construct n address entries = record {
  gdtr = record { limit = u16 (sub32 (u32 (sizeof_entry * n)) 1); base = u32 address };
  gdt_entries = entries;
}

pub num_entries : ℕ → ℕ
num_entries n = n

-- The entry that `SetGate` writes.
abbrev gate : ℕ → ℕ → ℕ → ℕ → GdtEntry
gate base limit access granularity =
    let high_limit = u8 (bit_and (limit / 2 ^ 16) 0x0F) in
    record {
      limit_low = u16 (bit_and limit 0xFFFF);
      base_low = u16 (bit_and base 0xFFFF);
      base_middle = u8 (bit_and (base / 2 ^ 16) 0xFF);
      access = access;
      granularity = u8 (bit_or high_limit (bit_and granularity 0xF0));
      base_high = u8 (bit_and (base / 2 ^ 24) 0xFF);
    }

-- `SetGate`, for an index of the table.
unfoldable pub set_gate : ℕ → ℕ → ℕ → ℕ → ℕ → GlobalDescriptorTable → GlobalDescriptorTable
set_gate i base limit access granularity gdt = record gdt {
  gdt_entries = λ k. if k == i then gate base limit access granularity else gdt.gdt_entries k;
}
