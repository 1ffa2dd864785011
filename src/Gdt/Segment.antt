-- ===== src/Gdt/Segment.antt =====
-- The segment that the processor reads from an entry, put together as its manual says.
use cosmo.Bits.{bit_and_above, bit_and_low, bit_or_sum_flip}
use cosmo.Gdt.{GdtEntry, GlobalDescriptorTable, construct, gate, set_gate}
use cosmo.Prelude.{
  ℕ, ◌+◌, ◌*◌, ◌/◌, ◌%◌, ◌^◌, ◌<◌, ◌≤◌, ◌≡◌, ◌≢◌, refl, arith, bit_and, bit_or, u8, ap, ◌==◌, true,
  false,
}

pub record Segment : Type 0 where
  pub base : ℕ
  pub limit : ℕ
  pub access : ℕ
  pub flags : ℕ

-- The base is in three fields, the limit in two, the flags in the high half of a byte.
abbrev pub segment : GdtEntry → Segment
segment e = record {
  base = e.base_high * 2 ^ 24 + e.base_middle * 2 ^ 16 + e.base_low;
  limit = e.granularity % 2 ^ 4 * 2 ^ 16 + e.limit_low;
  access = e.access;
  flags = e.granularity / 2 ^ 4;
}

-- `x & 0xF0`.
high_half : (x : ℕ) → x < 2 ^ 8 → bit_and x 0xF0 ≡ x / 16 * 16
high_half x l =
    let parts : x ≡ x / 16 * 2 ^ 4 + x % 16 = omega arith in
    omega (
      arith,
      ap (λ (t : ℕ). bit_and t 0xF0) parts,
      bit_and_above 4 (x / 16) (x % 16) 0x0F (omega arith),
      bit_and_low 4 (x / 16),
    )

segment_eq :
    {s t : Segment}
    → s.base ≡ t.base
    → s.limit ≡ t.limit
    → s.access ≡ t.access
    → s.flags ≡ t.flags
    → s ≡ t
segment_eq b l a f = λ j. record { base = b j; limit = l j; access = a j; flags = f j }

gate-segment :
    (base limit access granularity : ℕ)
    → base < 2 ^ 32
    → granularity < 2 ^ 8
    → segment (gate base limit access granularity)
      ≡ record { base = base; limit = limit % 2 ^ 20; access = access; flags = granularity / 2 ^ 4 }
gate-segment base limit access granularity b r =
    let limit_high = bit_and_low 4 (limit / 2 ^ 16) in
    let byte = bit_or_sum_flip 4 (granularity / 16) (limit / 2 ^ 16 % 16) (omega arith) in
    let packed : u8 (bit_or (u8 (bit_and (limit / 2 ^ 16) 0x0F)) (bit_and granularity 0xF0))
        ≡ granularity / 16 * 16 + limit / 2 ^ 16 % 16 =
      let low : u8 (bit_and (limit / 2 ^ 16) 0x0F) ≡ limit / 2 ^ 16 % 16 = omega arith in
      rw (low, high_half granularity r) (omega arith) in
    segment_eq
      (omega
        (arith, bit_and_low 16 base, bit_and_low 8 (base / 2 ^ 16), bit_and_low 8 (base / 2 ^ 24)))
      (omega (arith, packed, bit_and_low 16 limit)) refl (omega (arith, packed))

-- After `SetGate` with 32 bits of base and a byte of granularity the processor reads that base at
-- the index, the low 20 bits of the limit, the access byte, and the granularity's high half as the
-- flags. Every other entry is as it was.
pub set_gate-segment :
    (i base limit access granularity k : ℕ) (gdt : GlobalDescriptorTable)
    → base < 2 ^ 32
    → granularity < 2 ^ 8
    → let g = set_gate i base limit access granularity gdt in
      (segment (g.gdt_entries i) ≡ (record {
        base = base;
        limit = limit % 2 ^ 20;
        access = access;
        flags = granularity / 2 ^ 4;
      }))
      × (k ≢ i → g.gdt_entries k ≡ gdt.gdt_entries k)
unfolding set_gate
set_gate-segment i base limit access granularity k gdt b r =
    let here : (i == i) ≡ true = ground arith in
    (
      rw here (gate-segment base limit access granularity b r),
      λ p. let elsewhere : (k == i) ≡ false = ground arith in rw elsewhere refl,
    )

-- The register of a table of 1 to 8192 entries, each 8 bytes long, holds the offset of its last
-- byte, and the address of its first.
pub construct-limit :
    (n address : ℕ) (entries : ℕ → GdtEntry)
    → 1 ≤ n
    → n ≤ 8192
    → address < 2 ^ 32
    → let r = (construct n address entries).gdtr in (r.limit + 1 ≡ 8 * n) × (r.base ≡ address)
unfolding construct
construct-limit n address entries p q a = (omega arith, omega arith)
